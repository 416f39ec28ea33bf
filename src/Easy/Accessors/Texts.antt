-- ===== src/Easy/Accessors/Texts.antt =====
-- The attributes of ext/curb_easy.c that are kept in the opts of an easy as they are given: here nil and
-- Strings; libcurl has CURLOPT_USERNAME and CURLOPT_PASSWORD.
use curb.Base.{ℕ, ◌==◌, ◌≡◌, refl, ◌<◌, Option, none, List, [], ◌∷◌, Bytes, if◌then◌else◌, arith}
use curb.Easy.{Easy, Opts}
use curb.Easy.Accessors.{entry, replace, entry-replace}

-- CURB_OBJECT_HSETTER
unfoldable pub object_hset {ℓ} : {A : Type ℓ} → (A → Opts → Opts) → A → Easy → Easy × A
object_hset put v e = (record e { opts = put v (e.opts) }, v)

unfoldable pub cert_set : Option Bytes → Easy → Easy × Option Bytes
cert_set = object_hset λ text o. record o { cert = text }

unfoldable pub cert_get : Easy → Option Bytes
cert_get e = e.opts.cert

unfoldable pub cert_key_set : Option Bytes → Easy → Easy × Option Bytes
cert_key_set = object_hset λ text o. record o { cert_key = text }

unfoldable pub cert_key_get : Easy → Option Bytes
cert_key_get e = e.opts.cert_key

unfoldable pub cacert_set : Option Bytes → Easy → Easy × Option Bytes
cacert_set = object_hset λ text o. record o { cacert = text }

unfoldable pub cacert_get : Easy → Option Bytes
cacert_get e = e.opts.cacert

unfoldable pub certtype_set : Option Bytes → Easy → Easy × Option Bytes
certtype_set = object_hset λ text o. record o { certtype = text }

unfoldable pub certtype_get : Easy → Option Bytes
certtype_get e = e.opts.certtype

unfoldable pub encoding_set : Option Bytes → Easy → Easy × Option Bytes
encoding_set = object_hset λ text o. record o { encoding = text }

unfoldable pub encoding_get : Easy → Option Bytes
encoding_get e = e.opts.encoding

unfoldable pub useragent_set : Option Bytes → Easy → Easy × Option Bytes
useragent_set = object_hset λ text o. record o { useragent = text }

unfoldable pub useragent_get : Easy → Option Bytes
useragent_get e = e.opts.useragent

unfoldable pub doh_url_set : Option Bytes → Easy → Easy × Option Bytes
doh_url_set = object_hset λ text o. record o { doh_url = text }

unfoldable pub doh_url_get : Easy → Option Bytes
doh_url_get e = e.opts.doh_url

unfoldable pub username_set : Option Bytes → Easy → Easy × Option Bytes
username_set = object_hset λ text o. record o { username = text }

unfoldable pub username_get : Easy → Option Bytes
username_get e = e.opts.username

unfoldable pub password_set : Option Bytes → Easy → Easy × Option Bytes
password_set = object_hset λ text o. record o { password = text }

unfoldable pub password_get : Easy → Option Bytes
password_get e = e.opts.password

unfoldable pub certpassword_set : Option Bytes → Easy → Easy × Option Bytes
certpassword_set = object_hset λ text o. record o { certpassword = text }

-- What has a setter here.
pub data Text : Type 0 where
  cert cert_key cacert certtype encoding useragent doh_url username password certpassword : Text

abbrev pub text_set : Text → Option Bytes → Easy → Easy × Option Bytes
text_set cert = cert_set
text_set cert_key = cert_key_set
text_set cacert = cacert_set
text_set certtype = certtype_set
text_set encoding = encoding_set
text_set useragent = useragent_set
text_set doh_url = doh_url_set
text_set username = username_set
text_set password = password_set
text_set certpassword = certpassword_set

-- The one without a getter is read from opts.
abbrev pub text_get : Text → Easy → Option Bytes
text_get cert e = cert_get e
text_get cert_key e = cert_key_get e
text_get cacert e = cacert_get e
text_get certtype e = certtype_get e
text_get encoding e = encoding_get e
text_get useragent e = useragent_get e
text_get doh_url e = doh_url_get e
text_get username e = username_get e
text_get password e = password_get e
text_get certpassword e = e.opts.certpassword

abbrev pub text_index : Text → ℕ
text_index cert = 0
text_index cert_key = 1
text_index cacert = 2
text_index certtype = 3
text_index encoding = 4
text_index useragent = 5
text_index doh_url = 6
text_index username = 7
text_index password = 8
text_index certpassword = 9

abbrev pub text_table : Easy → List (Option Bytes)
text_table e =
    e.opts.cert ∷ e.opts.cert_key ∷ e.opts.cacert ∷ e.opts.certtype ∷ e.opts.encoding
    ∷ e.opts.useragent ∷ e.opts.doh_url ∷ e.opts.username ∷ e.opts.password ∷ e.opts.certpassword
    ∷ []

pub text_get-entry : (t : Text) (e : Easy) → text_get t e ≡ entry none (text_table e) (text_index t)
unfolding cert_get cert_key_get cacert_get certtype_get encoding_get useragent_get doh_url_get
    username_get password_get
text_get-entry cert e = refl
text_get-entry cert_key e = refl
text_get-entry cacert e = refl
text_get-entry certtype e = refl
text_get-entry encoding e = refl
text_get-entry useragent e = refl
text_get-entry doh_url e = refl
text_get-entry username e = refl
text_get-entry password e = refl
text_get-entry certpassword e = refl

text_set-table :
    (t : Text) (text : Option Bytes) (e : Easy)
    → text_table (text_set t text e).0 ≡ replace (text_table e) (text_index t) text
unfolding object_hset cert_set cert_key_set cacert_set certtype_set encoding_set useragent_set
    doh_url_set username_set password_set certpassword_set
text_set-table cert text e = refl
text_set-table cert_key text e = refl
text_set-table cacert text e = refl
text_set-table certtype text e = refl
text_set-table encoding text e = refl
text_set-table useragent text e = refl
text_set-table doh_url text e = refl
text_set-table username text e = refl
text_set-table password text e = refl
text_set-table certpassword text e = refl

text_index-less : (t : Text) → text_index t < 10
text_index-less cert = omega arith
text_index-less cert_key = omega arith
text_index-less cacert = omega arith
text_index-less certtype = omega arith
text_index-less encoding = omega arith
text_index-less useragent = omega arith
text_index-less doh_url = omega arith
text_index-less username = omega arith
text_index-less password = omega arith
text_index-less certpassword = omega arith

-- A setter changes the text it is for and no other.
pub text_get-set :
    (t u : Text) (text : Option Bytes) (e : Easy)
    → text_get t (text_set u text e).0
      ≡ (if text_index t == text_index u then text else text_get t e)
text_get-set t u text e =
    rw (text_get-entry t (text_set u text e).0, text_get-entry t e, text_set-table u text e)
      (entry-replace none (text_table e) (text_index t) (text_index u) text (text_index-less u))
