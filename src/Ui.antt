-- ===== src/Ui.antt =====
-- packages/cemp-ui/src: the message bubble and the composer.
pub mod Bubble
pub mod Composer
