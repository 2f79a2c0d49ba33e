-- ===== src/Security.antt =====
-- src/security/: firewall, bot score, captcha, their pipeline, and the policy as annotations.
pub mod Request
pub mod Waf
pub mod Bot
pub mod Captcha
pub mod Pipeline
pub mod Annotations
