-- ===== src/ImageState.antt =====
-- pkg/mirror/imagestate/imagestate.go: the state of the images of one ImageSet, the shared-image
-- index, and the migration of the older consolidated store. The in-memory maps hold no nil
-- entries (every loop of the program that could meet one skips it), so an entry is a value here.
pub mod Entry
pub mod Counting
pub mod SharedIndex
