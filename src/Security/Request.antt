-- ===== src/Security/Request.antt =====
-- src/security/mod.rs: what the edge checks read of a request.
use pertisk_proxy.Base.{Bytes, Option}

pub record RequestView : Type 0 where
  pub method : Bytes
  pub path : Bytes
  pub query : Bytes
  pub user_agent : Option Bytes
  pub accept : Option Bytes
  pub accept_language : Option Bytes
  pub cookie : Option Bytes
  pub client_ip : Option Bytes
