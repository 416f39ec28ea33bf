-- ===== src/Network/Host/Url/Round.antt =====
-- The host that curb_normalize_host_value of ext/curb_easy.c finds in a URL.
use curb.Base.{◌∷◌, ◌++◌, Bytes}
use curb.Network.Host.Url.{Url, authority_text, IsUrl}

module _ (u : Url) (v : IsUrl u) where
  before_tail : Bytes
  before_tail = u.scheme_first ∷ (u.scheme_rest ++ b':' ∷ b'/' ∷ b'/' ∷ authority_text u)
