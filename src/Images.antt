-- ===== src/Images.antt =====
-- packages/cemp-images/src: what a receiver accepts of an image, and the capacity that a reclaim frees.
pub mod Manifest
pub mod Reclaim
