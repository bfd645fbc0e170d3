-- ===== src/Tests.antt =====
-- Runs of the code on small inputs, and an instance of each theorem that has hypotheses.
mod Data
mod Patching
mod Creating
mod Storing
mod Guards
mod Slicing
mod Describing
mod Downloading
mod Reading
mod Serving
mod EndToEnd
mod Clients
