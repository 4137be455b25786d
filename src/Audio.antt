-- ===== src/Audio.antt =====
-- mum/src/audio.rs and mum/src/audio/: sound effects, volumes, the noise gate, what the microphone
-- hears and what the speakers play.
pub mod Effects
pub mod Input
pub mod Output
pub mod Playback
pub mod Transformers
