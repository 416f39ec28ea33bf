-- ===== src/Errors.antt =====
-- The exception class of each libcurl result, in ext/curb_errors.c: rb_curl_easy_error and
-- rb_curl_multi_error, with the constants of libcurl by their numbers. Every HAVE_ macro counts as
-- defined, and libcurl as 7.62 or later, where 51 is 60.
pub mod Classes
pub mod Distinct
use curb.Base.{
  ℕ, ◌-◌, Bool, true, false, Option, none, some, List, [], ◌∷◌, ltb, if◌then◌else◌, get_or,
}
use curb.Base.Int.{ℤ, pos, negsuc}
use curb.Errors.Classes.{
  ErrorClass, ok, unsupported_protocol, failed_init, malformed_url, not_built_in, proxy_resolution,
  host_resolution, connect_failed, ftp_weird_reply, ftp_access_denied, ftp_bad_password,
  ftp_weird_pass_reply, ftp_weird_user_reply, ftp_weird_pasv_reply, ftp_weird227_format,
  ftp_cant_get_host, ftp_cant_reconnect, ftp_couldnt_set_binary, partial_file,
  ftp_couldnt_retr_file, ftp_write, ftp_quote, http_failed, write_error, malformed_user,
  ftp_couldnt_stor_file, read_error, out_of_memory, timeout, ftp_couldnt_set_ascii, ftp_port_failed,
  ftp_couldnt_use_rest, ftp_couldnt_get_size, http_range, http_post, ssl_connect_error, bad_resume,
  file_couldnt_read, ldap_couldnt_bind, ldap_search_failed, library_not_found, function_not_found,
  aborted_by_callback, bad_function_argument, bad_calling_order, interface_failed,
  bad_password_entered, too_many_redirects, telnet_unknown_option, telnet_bad_option_syntax,
  obsolete, error, got_nothing, ssl_engine_not_found, ssl_engine_set_failed, send_error, recv_error,
  share_in_use, ssl_certificate, ssl_cipher, ssl_peer_certificate, bad_content_encoding,
  ldap_invalid_url, file_size_exceeded, ftpssl_failed, send_failed_rewind, ssl_engine_init_failed,
  login_denied, tftp_not_found, tftp_permission, tftp_disk_full, tftp_illegal_operation,
  tftp_unknown_id, tftp_file_exists, conv_failed, conv_reqd, ssl_cacert_badfile,
  remote_file_not_found, ssh, ssl_shutdown_failed, again, sslcrl_badfile, ssl_issuer_error,
  ftppret_failed, rtsp_cseq_error, rtsp_session_error, ftp_bad_file_list, chunk_failed,
  no_connection_available, ssl_pinned_pub_key_not_match, ssl_invalid_cert_status, http2_stream,
  multi_call_multi_perform, multi_bad_handle, multi_bad_easy_handle, multi_out_of_memory,
  multi_internal_error, multi_bad_socket, multi_unknown_option, multi_added_already,
}

-- Results 0 to 33
abbrev pub errors_from_0 : List ErrorClass
errors_from_0 =
    ok ∷ unsupported_protocol ∷ failed_init ∷ malformed_url ∷ not_built_in ∷ proxy_resolution
    ∷ host_resolution ∷ connect_failed ∷ ftp_weird_reply ∷ ftp_access_denied ∷ ftp_bad_password
    ∷ ftp_weird_pass_reply ∷ ftp_weird_user_reply ∷ ftp_weird_pasv_reply ∷ ftp_weird227_format
    ∷ ftp_cant_get_host ∷ ftp_cant_reconnect ∷ ftp_couldnt_set_binary ∷ partial_file
    ∷ ftp_couldnt_retr_file ∷ ftp_write ∷ ftp_quote ∷ http_failed ∷ write_error ∷ malformed_user
    ∷ ftp_couldnt_stor_file ∷ read_error ∷ out_of_memory ∷ timeout ∷ ftp_couldnt_set_ascii
    ∷ ftp_port_failed ∷ ftp_couldnt_use_rest ∷ ftp_couldnt_get_size ∷ http_range ∷ []

-- Results 34 to 67, with the class of unknown results for 51
abbrev pub errors_from_34 : List ErrorClass
errors_from_34 =
    http_post ∷ ssl_connect_error ∷ bad_resume ∷ file_couldnt_read ∷ ldap_couldnt_bind
    ∷ ldap_search_failed ∷ library_not_found ∷ function_not_found ∷ aborted_by_callback
    ∷ bad_function_argument ∷ bad_calling_order ∷ interface_failed ∷ bad_password_entered
    ∷ too_many_redirects ∷ telnet_unknown_option ∷ telnet_bad_option_syntax ∷ obsolete ∷ error
    ∷ got_nothing ∷ ssl_engine_not_found ∷ ssl_engine_set_failed ∷ send_error ∷ recv_error
    ∷ share_in_use ∷ ssl_certificate ∷ ssl_cipher ∷ ssl_peer_certificate ∷ bad_content_encoding
    ∷ ldap_invalid_url ∷ file_size_exceeded ∷ ftpssl_failed ∷ send_failed_rewind
    ∷ ssl_engine_init_failed ∷ login_denied ∷ []

-- Results 68 to 92
abbrev pub errors_from_68 : List ErrorClass
errors_from_68 =
    tftp_not_found ∷ tftp_permission ∷ tftp_disk_full ∷ tftp_illegal_operation ∷ tftp_unknown_id
    ∷ tftp_file_exists ∷ tftp_not_found ∷ conv_failed ∷ conv_reqd ∷ ssl_cacert_badfile
    ∷ remote_file_not_found ∷ ssh ∷ ssl_shutdown_failed ∷ again ∷ sslcrl_badfile ∷ ssl_issuer_error
    ∷ ftppret_failed ∷ rtsp_cseq_error ∷ rtsp_session_error ∷ ftp_bad_file_list ∷ chunk_failed
    ∷ no_connection_available ∷ ssl_pinned_pub_key_not_match ∷ ssl_invalid_cert_status
    ∷ http2_stream ∷ []

-- The switch; results past the last case are unknown.
unfoldable pub easy_error : ℕ → ErrorClass
easy_error code =
    if ltb code 34
    then get_or errors_from_0 code error
    else if ltb code 68
    then get_or errors_from_34 (code - 34) error
    else get_or errors_from_68 (code - 68) error

-- 0 has no case.
abbrev pub multi_errors : List ErrorClass
multi_errors =
    error ∷ multi_bad_handle ∷ multi_bad_easy_handle ∷ multi_out_of_memory ∷ multi_internal_error
    ∷ multi_bad_socket ∷ multi_unknown_option ∷ multi_added_already ∷ []

unfoldable pub multi_error_class : ℤ → ErrorClass
multi_error_class (negsuc n) = if ltb 0 n then error else multi_call_multi_perform
multi_error_class (pos n) = get_or multi_errors n error
