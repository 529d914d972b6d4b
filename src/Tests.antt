-- ===== src/Tests.antt =====
-- Runs of the model at concrete inputs, and the theorems applied to such inputs.
mod Connections
mod Listener
mod Store
mod Server
mod AuthService
mod Gateway
mod Endpoints
mod Tokens
mod Broker
mod Service
mod Schema
mod Containers
