-- ===== src/Media.antt =====
-- mobile/src/features/media: the upload of a picked file (uploader.ts) and the photo of a machine that
-- is registered (useRegistrationPhoto.ts).
pub mod Uploader
pub mod Photo
