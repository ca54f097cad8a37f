-- ===== src/Iso20022.antt =====
-- app/infra/iso20022: messages, over the XML library's answers.
pub mod Pain001
pub mod Reading
pub mod Pacs008
pub mod Errors
