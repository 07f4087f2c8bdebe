-- ===== src/Llm.antt =====
-- internal/services/llm: the messages that are sent to a model, and the choice of the model.
pub mod Messages
pub mod Choice
