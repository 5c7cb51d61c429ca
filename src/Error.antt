-- ===== src/Error.antt =====
-- src/error.rs: `ProxyError`, and `anyhow::Error` as the proxy raises it.
use hexbuffer_proxy.Prelude.{◌++◌}
use hexbuffer_proxy.Text.{Str, codes}

-- An error of another crate is known by its message.
pub data ProxyError : Type 0 where
  io tls hyper http cert connection protocol : Str → ProxyError

-- `#[error("…")]`.
unfoldable pub display : ProxyError → Str
display (io m) = codes "I/O error: " ++ m
display (tls m) = codes "TLS error: " ++ m
display (hyper m) = codes "HTTP error: " ++ m
display (http m) = codes "invalid HTTP: " ++ m
display (cert m) = codes "certificate error: " ++ m
display (connection m) = codes "connection failed: " ++ m
display (protocol m) = codes "protocol error: " ++ m

-- `anyhow::Error`: one of the proxy's own errors, an error of another crate or of the standard
-- library, or a message of `anyhow!`.
pub data Failure : Type 0 where
  from_proxy : ProxyError → Failure
  from_external : Str → Failure
  message : Str → Failure
