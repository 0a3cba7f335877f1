-- ===== src/Api.antt =====
-- api.py: the answer to a question.
pub mod Answer
pub mod Evidence
pub mod Routes
pub mod Wait
pub mod Codes
