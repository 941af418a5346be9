-- ===== src/Apis.antt =====
-- client/src/apis: what the client asks of Cognito, DynamoDB, S3, the wallet and the servers.
pub mod Number
pub mod Request
pub mod Decimal
pub mod Cognito
pub mod Knowtfolio
pub mod Lambda
pub mod Dynamodb
pub mod Configs
pub mod S3
pub mod Stateless
