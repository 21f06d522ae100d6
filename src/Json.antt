-- ===== src/Json.antt =====
-- util/json.cpp: the scanner that reads fields straight off a message. A text is its list of bytes
-- and a position a number; `npos` is `none`. Where a loop reads on from `pos`, the model walks the
-- rest of the text from there, and `skip` counts the bytes that an inner call has already passed.
pub mod Scan
pub mod Fields
pub mod Loops
pub mod Bounds
pub mod Rounds
pub mod Stuck
pub mod Rules
pub mod Simulate
mod Tests
