-- ===== src/Expression.antt =====
-- The safe expression language of workflows (src/workflow/safe-expression.service.ts).
pub mod Types
pub mod Operators
pub mod Parser
pub mod Ends
pub mod Answering
pub mod Fuel
pub mod Syntax
pub mod Levels
pub mod Climb
pub mod Operands
pub mod RoundTrip
pub mod Lexer
pub mod Progress
pub mod Writing
pub mod Matching
pub mod Reading
pub mod Evaluation
pub mod Sandbox
pub mod Tests
