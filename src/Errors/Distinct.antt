-- ===== src/Errors/Distinct.antt =====
-- Which results of libcurl share an exception class (ext/curb_errors.c).
use curb.Base.{
  ℕ, ◌≡◌, ◌<◌, refl, ap, ◌⊎◌, Bool, true, ◌&&◌, ◌||◌, not, ◌==◌, ==_refl, arith, holds_below,
  holds_below-at,
}
use curb.Errors.Classes.{
  ErrorClass, error, ftp_error, http_error, file_error, ldap_error, telnet_error, tftp_error,
  rtsp_error, ok, unsupported_protocol, failed_init, malformed_url, not_built_in,
  malformed_url_user, proxy_resolution, host_resolution, connect_failed, ftp_weird_reply,
  ftp_access_denied, ftp_bad_password, ftp_weird_pass_reply, ftp_weird_user_reply,
  ftp_weird_pasv_reply, ftp_weird227_format, ftp_cant_get_host, ftp_cant_reconnect,
  ftp_couldnt_set_binary, partial_file, ftp_couldnt_retr_file, ftp_write, ftp_quote, http_failed,
  write_error, malformed_user, ftp_couldnt_stor_file, read_error, out_of_memory, timeout,
  ftp_couldnt_set_ascii, ftp_port_failed, ftp_couldnt_use_rest, ftp_couldnt_get_size, http_range,
  http_post, ssl_connect_error, bad_resume, file_couldnt_read, ldap_couldnt_bind,
  ldap_search_failed, library_not_found, function_not_found, aborted_by_callback,
  bad_function_argument, bad_calling_order, interface_failed, bad_password_entered,
  too_many_redirects, telnet_unknown_option, telnet_bad_option_syntax, obsolete,
  ssl_peer_certificate, got_nothing, ssl_engine_not_found, ssl_engine_set_failed, send_error,
  recv_error, share_in_use, conv_failed, conv_reqd, remote_file_not_found, again, ssl_certificate,
  ssl_cipher, sslca_certificate, bad_content_encoding, ssl_cacert_badfile, sslcrl_badfile,
  ssl_issuer_error, unsafe_destination, ssl_shutdown_failed, ssh, multi_failed_init,
  multi_call_multi_perform, multi_bad_handle, multi_bad_easy_handle, multi_out_of_memory,
  multi_internal_error, multi_bad_socket, multi_added_already, multi_unknown_option,
  ldap_invalid_url, file_size_exceeded, ftpssl_failed, send_failed_rewind, ssl_engine_init_failed,
  login_denied, tftp_not_found, tftp_permission, tftp_disk_full, tftp_illegal_operation,
  tftp_unknown_id, tftp_file_exists, tftp_no_such_user, invalid_post_field, ftppret_failed,
  rtsp_cseq_error, rtsp_session_error, ftp_bad_file_list, chunk_failed, no_connection_available,
  ssl_pinned_pub_key_not_match, ssl_invalid_cert_status, http2_stream,
}
use curb.Errors.{easy_error}

-- A number for each class, to compare them by.
unfoldable rank : ErrorClass → ℕ
rank error = 0
rank ftp_error = 1
rank http_error = 2
rank file_error = 3
rank ldap_error = 4
rank telnet_error = 5
rank tftp_error = 6
rank rtsp_error = 7
rank ok = 8
rank unsupported_protocol = 9
rank failed_init = 10
rank malformed_url = 11
rank not_built_in = 12
rank malformed_url_user = 13
rank proxy_resolution = 14
rank host_resolution = 15
rank connect_failed = 16
rank ftp_weird_reply = 17
rank ftp_access_denied = 18
rank ftp_bad_password = 19
rank ftp_weird_pass_reply = 20
rank ftp_weird_user_reply = 21
rank ftp_weird_pasv_reply = 22
rank ftp_weird227_format = 23
rank ftp_cant_get_host = 24
rank ftp_cant_reconnect = 25
rank ftp_couldnt_set_binary = 26
rank partial_file = 27
rank ftp_couldnt_retr_file = 28
rank ftp_write = 29
rank ftp_quote = 30
rank http_failed = 31
rank write_error = 32
rank malformed_user = 33
rank ftp_couldnt_stor_file = 34
rank read_error = 35
rank out_of_memory = 36
rank timeout = 37
rank ftp_couldnt_set_ascii = 38
rank ftp_port_failed = 39
rank ftp_couldnt_use_rest = 40
rank ftp_couldnt_get_size = 41
rank http_range = 42
rank http_post = 43
rank ssl_connect_error = 44
rank bad_resume = 45
rank file_couldnt_read = 46
rank ldap_couldnt_bind = 47
rank ldap_search_failed = 48
rank library_not_found = 49
rank function_not_found = 50
rank aborted_by_callback = 51
rank bad_function_argument = 52
rank bad_calling_order = 53
rank interface_failed = 54
rank bad_password_entered = 55
rank too_many_redirects = 56
rank telnet_unknown_option = 57
rank telnet_bad_option_syntax = 58
rank obsolete = 59
rank ssl_peer_certificate = 60
rank got_nothing = 61
rank ssl_engine_not_found = 62
rank ssl_engine_set_failed = 63
rank send_error = 64
rank recv_error = 65
rank share_in_use = 66
rank conv_failed = 67
rank conv_reqd = 68
rank remote_file_not_found = 69
rank again = 70
rank ssl_certificate = 71
rank ssl_cipher = 72
rank sslca_certificate = 73
rank bad_content_encoding = 74
rank ssl_cacert_badfile = 75
rank sslcrl_badfile = 76
rank ssl_issuer_error = 77
rank unsafe_destination = 78
rank ssl_shutdown_failed = 79
rank ssh = 80
rank multi_failed_init = 81
rank multi_call_multi_perform = 82
rank multi_bad_handle = 83
rank multi_bad_easy_handle = 84
rank multi_out_of_memory = 85
rank multi_internal_error = 86
rank multi_bad_socket = 87
rank multi_added_already = 88
rank multi_unknown_option = 89
rank ldap_invalid_url = 90
rank file_size_exceeded = 91
rank ftpssl_failed = 92
rank send_failed_rewind = 93
rank ssl_engine_init_failed = 94
rank login_denied = 95
rank tftp_not_found = 96
rank tftp_permission = 97
rank tftp_disk_full = 98
rank tftp_illegal_operation = 99
rank tftp_unknown_id = 100
rank tftp_file_exists = 101
rank tftp_no_such_user = 102
rank invalid_post_field = 103
rank ftppret_failed = 104
rank rtsp_cseq_error = 105
rank rtsp_session_error = 106
rank ftp_bad_file_list = 107
rank chunk_failed = 108
rank no_connection_available = 109
rank ssl_pinned_pub_key_not_match = 110
rank ssl_invalid_cert_status = 111
rank http2_stream = 112

-- The same class, for a known result, only for the same result or for 68 and 74.
unfoldable clash_free : ℕ → ℕ → Bool
clash_free c d =
    not (rank (easy_error c) == rank (easy_error d))
    || c == d
    || (c == 68 && d == 74)
    || (c == 74 && d == 68)

unfoldable all_clash_free : ℕ → Bool
all_clash_free c = holds_below 93 (clash_free c)

table_free : holds_below 93 all_clash_free ≡ true
unfolding holds_below all_clash_free clash_free rank easy_error
table_free = refl

pair_free : (c d : ℕ) → c < 93 → d < 93 → clash_free c d ≡ true
unfolding all_clash_free
pair_free c d hc hd =
    holds_below-at 93 (clash_free c) d (holds_below-at 93 all_clash_free c table_free hc) hd

-- Two results of libcurl's from 0 to 92 have the same exception class only if they are the same
-- result, or are 68 (CURLE_TFTP_NOTFOUND) and 74 (CURLE_TFTP_NOSUCHUSER).
pub easy_error-Distinct :
    (c d : ℕ)
    → c < 93
    → d < 93
    → easy_error c ≡ easy_error d
    → (c ≡ d) ⊎ (((c ≡ 68) × (d ≡ 74)) ⊎ ((c ≡ 74) × (d ≡ 68)))
unfolding clash_free
easy_error-Distinct c d hc hd same =
    ground (arith, pair_free c d hc hd, ==_refl (rank (easy_error c)), ap rank same)
