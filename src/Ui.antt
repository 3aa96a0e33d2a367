-- ===== src/Ui.antt =====
-- The terminal interface, src/ui: the parts that keep a state of their own.
pub mod Input
pub mod Secret
pub mod Buffer
