-- ===== src/Tests.antt =====
-- Concrete libraries and servers, and the theorems at concrete inputs.
mod Json
mod Server
mod Config
mod Nodes
mod Edits
mod Pack
mod Bridge
mod Http
mod Qt
mod Gui
mod Window
