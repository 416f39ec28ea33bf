-- ===== src/Setup/Lists.antt =====
-- The end of ruby_curl_easy_setup_body in ext/curb_easy.c: the headers and the other lists that
-- libcurl's handle refers to. A list is its strings, NULL the empty list, and an option of the handle
-- is the list that it points to. An Array in an Array of headers is left out.
use curb.Base.{Bool, true, false, List, [], ◌∷◌, ◌++◌, Bytes, map, if◌then◌else◌, is_some}
use curb.Easy.{
  Easy, Headers, no_headers, header_hash, header_array, header_string, Listing, no_list, listed,
  single,
}
use curb.Ruby.{no_memory, Value, Result, ok, raise, ◌>>=◌}

pub record ListOptions : Type 0 where
  pub httpheader : List Bytes
  pub proxyheader : List Bytes
  pub quote : List Bytes
  pub resolve : List Bytes
  pub connect_to : List Bytes

-- rb_obj_as_string, and whether curl_slist_append has no memory.
pub record Strings : Type 0 where
  pub as_string : Value → Result Bytes
  pub append_fails : List Bytes → Bytes → Bool

abbrev pub is_empty : Bytes → Bool
is_empty [] = true
is_empty (b ∷ bs) = false

abbrev pub is_null : List Bytes → Bool
is_null [] = true
is_null (s ∷ list) = false

-- A list of the easy, and the option of the handle for it.
abbrev pub Pair : Type 0
Pair = List Bytes × List Bytes

-- The option goes before the list does.
abbrev pub clear_pair : Bool → Pair → Pair
clear_pair handle (list, option) =
    if is_null list then (list, option) else ([], if handle then [] else option)

abbrev pub ListSetup : Type 0
ListSetup = (Easy × ListOptions) × Result (Unit {0})

unfoldable pub clear_headers_list : Easy → ListOptions → Easy × ListOptions
clear_headers_list e o =
    let p = clear_pair (is_some e.curl) (e.curl_headers, o.httpheader) in
    (record e { curl_headers = p.0 }, record o { httpheader = p.1 })

unfoldable pub clear_proxy_headers_list : Easy → ListOptions → Easy × ListOptions
clear_proxy_headers_list e o =
    let p = clear_pair (is_some e.curl) (e.curl_proxy_headers, o.proxyheader) in
    (record e { curl_proxy_headers = p.0 }, record o { proxyheader = p.1 })

unfoldable pub clear_ftp_commands_list : Easy → ListOptions → Easy × ListOptions
clear_ftp_commands_list e o =
    let p = clear_pair (is_some e.curl) (e.curl_ftp_commands, o.quote) in
    (record e { curl_ftp_commands = p.0 }, record o { quote = p.1 })

unfoldable pub clear_resolve_list : Easy → ListOptions → Easy × ListOptions
clear_resolve_list e o =
    let p = clear_pair (is_some e.curl) (e.curl_resolve, o.resolve) in
    (record e { curl_resolve = p.0 }, record o { resolve = p.1 })

unfoldable pub clear_connect_to_list : Easy → ListOptions → Easy × ListOptions
clear_connect_to_list e o =
    let p = clear_pair (is_some e.curl) (e.curl_connect_to, o.connect_to) in
    (record e { curl_connect_to = p.0 }, record o { connect_to = p.1 })

unfoldable pub clear_setup_lists : Easy → ListOptions → Easy × ListOptions
clear_setup_lists e o =
    let a = clear_headers_list e o in
    let b = clear_proxy_headers_list a.0 a.1 in
    let c = clear_ftp_commands_list b.0 b.1 in
    let d = clear_resolve_list c.0 c.1 in clear_connect_to_list d.0 d.1

abbrev pub and_lists : ListSetup → (Easy → ListOptions → ListSetup) → ListSetup
and_lists ((e, o), ok u) next = next e o
and_lists ((e, o), raise x) next = ((e, o), raise x)

module _ (S : Strings) where
  -- The strings are appended one by one, until one raises.
  abbrev pub append_all : List Bytes → List (Result Bytes) → List Bytes × Result (Unit {0})
  append_all list [] = (list, ok tt)
  append_all list (raise x ∷ texts) = (list, raise x)
  append_all list (ok s ∷ texts) =
      let rest = append_all (list ++ (s ∷ [])) texts in
      if S.append_fails list s then (list, raise no_memory) else rest

  -- A header with an empty value is one to take off.
  abbrev pub http_header : Bytes × Value → Result Bytes
  http_header (name, value) =
      S.as_string value >>= λ v. ok (if is_empty v then name ++ (58 ∷ []) else name ++ 58 ∷ 32 ∷ v)

  abbrev pub http_proxy_header : Bytes × Value → Result Bytes
  http_proxy_header (name, value) = S.as_string value >>= λ v. ok (name ++ 58 ∷ 32 ∷ v)

  abbrev pub header_texts : (Bytes × Value → Result Bytes) → Headers → List (Result Bytes)
  header_texts make no_headers = []
  header_texts make (header_hash pairs) = map make pairs
  header_texts make (header_array items) = map S.as_string items
  header_texts make (header_string text) = ok text ∷ []

  -- FTP commands that are no Array are passed over.
  abbrev pub command_texts : Listing → List (Result Bytes)
  command_texts no_list = []
  command_texts (listed items) = map S.as_string items
  command_texts (single v) = []

  abbrev pub listing_texts : Listing → List (Result Bytes)
  listing_texts no_list = []
  listing_texts (listed items) = map S.as_string items
  listing_texts (single v) = S.as_string v ∷ []

  -- The option is set if there is a list.
  abbrev pub pointed : List Bytes → List Bytes × Result (Unit {0}) → Pair × Result (Unit {0})
  pointed option (list, raise x) = ((list, option), raise x)
  pointed option (list, ok u) = ((list, if is_null list then option else list), ok tt)

  abbrev pub fill_pair : List (Result Bytes) → Pair → Pair × Result (Unit {0})
  fill_pair texts (list, option) = pointed option (append_all list texts)

  unfoldable pub setup_headers : Easy → ListOptions → ListSetup
  setup_headers e o =
      let r = fill_pair (header_texts http_header e.opts.headers) (e.curl_headers, []) in
      ((record e { curl_headers = r.0.0 }, record o { httpheader = r.0.1 }), r.1)

  unfoldable pub setup_proxy_headers : Easy → ListOptions → ListSetup
  setup_proxy_headers e o =
      let r =
        fill_pair (header_texts http_proxy_header e.opts.proxy_headers)
          (e.curl_proxy_headers, []) in
      ((record e { curl_proxy_headers = r.0.0 }, record o { proxyheader = r.0.1 }), r.1)

  unfoldable pub setup_ftp_commands : Easy → ListOptions → ListSetup
  setup_ftp_commands e o =
      let r = fill_pair (command_texts e.opts.ftp_commands) (e.curl_ftp_commands, o.quote) in
      ((record e { curl_ftp_commands = r.0.0 }, record o { quote = r.0.1 }), r.1)

  unfoldable pub setup_resolve : Easy → ListOptions → ListSetup
  setup_resolve e o =
      let r = fill_pair (listing_texts e.opts.resolve) (e.curl_resolve, o.resolve) in
      ((record e { curl_resolve = r.0.0 }, record o { resolve = r.0.1 }), r.1)

  unfoldable pub setup_connect_to : Easy → ListOptions → ListSetup
  setup_connect_to e o =
      let r = fill_pair (listing_texts e.opts.connect_to) (e.curl_connect_to, o.connect_to) in
      ((record e { curl_connect_to = r.0.0 }, record o { connect_to = r.0.1 }), r.1)

  unfoldable pub setup_lists : Easy → ListOptions → ListSetup
  setup_lists e o =
      let c = clear_setup_lists e o in
      and_lists (setup_headers c.0 c.1) λ e o. and_lists (setup_proxy_headers e o) λ e o.
        and_lists (setup_ftp_commands e o) λ e o. and_lists (setup_resolve e o) setup_connect_to
