-- ===== src/Llm.antt =====
-- backend/internal/llm: the validation of the numbers and levels of an answer, and the inference around it.
pub mod Problems
pub mod Numbers
pub mod Targets
pub mod Levels
pub mod Complete
pub mod Sorted
pub mod Ranges
pub mod Entry
pub mod Accepted
pub mod Inference
pub mod Service
pub mod Ends
pub mod Traced
pub mod Languages
pub mod Narratives
pub mod Translated
