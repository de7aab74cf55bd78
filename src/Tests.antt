-- ===== src/Tests.antt =====
-- Runs of the definitions on concrete inputs.
mod Samples
mod Paths
mod Routing
mod Forwarding
mod Responses
mod Signing
mod Logging
mod Policies
mod Origins
mod Recording
mod Writing
mod Serving
mod Building
mod References
