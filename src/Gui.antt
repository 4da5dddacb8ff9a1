-- ===== src/Gui.antt =====
-- The bridge with a window, src/gui: its engine, the browser of nodes with its dialog, and the main
-- window.
pub mod Qt
pub mod Mapping
pub mod Frame
pub mod Engine
pub mod Browser
pub mod Dialog
pub mod Window
