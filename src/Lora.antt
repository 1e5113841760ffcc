-- ===== src/Lora.antt =====
-- packages/cemp-lora/src: polling a LoRa gateway for envelopes.
pub mod Transport
