-- ===== src/Pipeline.antt =====
-- backend/src/processing/PipelineParser.{h,cpp}.
pub mod Text
pub mod Parser
pub mod Tokens
pub mod Printed
pub mod Reread
mod Tests
