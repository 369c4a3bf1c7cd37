-- ===== src/Js.antt =====
-- What the services use of JavaScript itself: JSON values, property reads, `??`, text measures.
pub mod Int
pub mod Json
pub mod Text
