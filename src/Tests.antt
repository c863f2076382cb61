-- ===== src/Tests.antt =====
-- Runs at concrete inputs, and the theorems at inputs that meet their hypotheses.
mod Bits
mod Descriptors
mod Bytes
mod Pages
mod Threads
mod Lists
mod Options
mod Chunks
mod Queue
mod Break
mod Slices
mod Paging
mod Archives
mod Keys
