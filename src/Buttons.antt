-- ===== src/Buttons.antt =====
-- lib/buttons: the table of callbacks and the keyboards that send their identifiers.
pub mod Callback
pub mod Keyboard
