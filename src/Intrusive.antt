-- ===== src/Intrusive.antt =====
-- src/intrusive/: the intrusive lists and the reference counts that all primitives build on.
pub mod Links
pub mod Rc
pub mod Slist
