-- ===== src/Tests.antt =====
-- Runs on concrete inputs, and the theorems at concrete inputs. `Toy` is a lawful instance of the
-- primitives that the program takes from other packages.
mod Toy
mod Only
mod Trust
mod TrustExamples
mod Extraction
mod Extracting
mod Container
mod Cli
mod Files
mod Product
mod Signing
mod Provenance
mod Hub
mod Execution
