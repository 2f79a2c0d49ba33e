-- ===== src/Tests.antt =====
-- Concrete runs of the models, one file for each part of the program.
mod Waf
mod Bot
mod Captcha
mod Pipeline
mod Edge
mod Routing
mod Leader
mod Proxy
mod Filter
mod Tunnel
mod Certs
