-- ===== src/Requests.antt =====
-- What a request passes: the guard, the validation of its body, the handler of its route, and what
-- is sent back.
pub mod Dto
pub mod Dtos
pub mod Answer
pub mod Validation
pub mod Scoped
pub mod Serve
pub mod Meetings
pub mod Tasks
