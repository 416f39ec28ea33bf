-- ===== src/Errors/Classes.antt =====
-- The exception classes of ext/curb_errors.c: the hierarchy that init_curb_errors builds.
use curb.Base.{Option, none, some}

-- The variables of the source, without their prefix; mCurlErr is `multi`.
pub data ErrorClass : Type 0 where
  error ftp_error http_error file_error ldap_error telnet_error tftp_error rtsp_error ok :
      ErrorClass
  unsupported_protocol failed_init malformed_url not_built_in malformed_url_user proxy_resolution :
      ErrorClass
  host_resolution connect_failed ftp_weird_reply ftp_access_denied ftp_bad_password : ErrorClass
  ftp_weird_pass_reply ftp_weird_user_reply ftp_weird_pasv_reply ftp_weird227_format : ErrorClass
  ftp_cant_get_host ftp_cant_reconnect ftp_couldnt_set_binary partial_file ftp_couldnt_retr_file :
      ErrorClass
  ftp_write ftp_quote http_failed write_error malformed_user ftp_couldnt_stor_file read_error :
      ErrorClass
  out_of_memory timeout ftp_couldnt_set_ascii ftp_port_failed ftp_couldnt_use_rest : ErrorClass
  ftp_couldnt_get_size http_range http_post ssl_connect_error bad_resume file_couldnt_read :
      ErrorClass
  ldap_couldnt_bind ldap_search_failed library_not_found function_not_found aborted_by_callback :
      ErrorClass
  bad_function_argument bad_calling_order interface_failed bad_password_entered : ErrorClass
  too_many_redirects telnet_unknown_option telnet_bad_option_syntax obsolete ssl_peer_certificate :
      ErrorClass
  got_nothing ssl_engine_not_found ssl_engine_set_failed send_error recv_error share_in_use :
      ErrorClass
  conv_failed conv_reqd remote_file_not_found again ssl_certificate ssl_cipher sslca_certificate :
      ErrorClass
  bad_content_encoding ssl_cacert_badfile sslcrl_badfile ssl_issuer_error unsafe_destination :
      ErrorClass
  ssl_shutdown_failed ssh multi_failed_init multi_call_multi_perform multi_bad_handle : ErrorClass
  multi_bad_easy_handle multi_out_of_memory multi_internal_error multi_bad_socket : ErrorClass
  multi_added_already multi_unknown_option ldap_invalid_url file_size_exceeded ftpssl_failed :
      ErrorClass
  send_failed_rewind ssl_engine_init_failed login_denied tftp_not_found tftp_permission : ErrorClass
  tftp_disk_full tftp_illegal_operation tftp_unknown_id tftp_file_exists tftp_no_such_user :
      ErrorClass
  invalid_post_field ftppret_failed rtsp_cseq_error rtsp_session_error ftp_bad_file_list :
      ErrorClass
  chunk_failed no_connection_available ssl_pinned_pub_key_not_match ssl_invalid_cert_status :
      ErrorClass
  http2_stream : ErrorClass

-- The superclass; that of CurlError is RuntimeError, `none` here.
unfoldable pub superclass : ErrorClass → Option ErrorClass
superclass error = none
superclass ftp_error = some error
superclass http_error = some error
superclass file_error = some error
superclass ldap_error = some error
superclass telnet_error = some error
superclass tftp_error = some error
superclass rtsp_error = some error
superclass ok = some error
superclass unsupported_protocol = some error
superclass failed_init = some error
superclass malformed_url = some error
superclass not_built_in = some error
superclass malformed_url_user = some error
superclass proxy_resolution = some error
superclass host_resolution = some error
superclass connect_failed = some error
superclass ftp_weird_reply = some ftp_error
superclass ftp_access_denied = some ftp_error
superclass ftp_bad_password = some ftp_error
superclass ftp_weird_pass_reply = some ftp_error
superclass ftp_weird_user_reply = some ftp_error
superclass ftp_weird_pasv_reply = some ftp_error
superclass ftp_weird227_format = some ftp_error
superclass ftp_cant_get_host = some ftp_error
superclass ftp_cant_reconnect = some ftp_error
superclass ftp_couldnt_set_binary = some ftp_error
superclass partial_file = some error
superclass ftp_couldnt_retr_file = some ftp_error
superclass ftp_write = some ftp_error
superclass ftp_quote = some ftp_error
superclass http_failed = some http_error
superclass write_error = some error
superclass malformed_user = some error
superclass ftp_couldnt_stor_file = some ftp_error
superclass read_error = some error
superclass out_of_memory = some error
superclass timeout = some error
superclass ftp_couldnt_set_ascii = some ftp_error
superclass ftp_port_failed = some ftp_error
superclass ftp_couldnt_use_rest = some ftp_error
superclass ftp_couldnt_get_size = some ftp_error
superclass http_range = some http_error
superclass http_post = some http_error
superclass ssl_connect_error = some error
superclass bad_resume = some error
superclass file_couldnt_read = some file_error
superclass ldap_couldnt_bind = some ldap_error
superclass ldap_search_failed = some ldap_error
superclass library_not_found = some error
superclass function_not_found = some error
superclass aborted_by_callback = some error
superclass bad_function_argument = some error
superclass bad_calling_order = some error
superclass interface_failed = some error
superclass bad_password_entered = some error
superclass too_many_redirects = some error
superclass telnet_unknown_option = some telnet_error
superclass telnet_bad_option_syntax = some telnet_error
superclass obsolete = some error
superclass ssl_peer_certificate = some error
superclass got_nothing = some error
superclass ssl_engine_not_found = some error
superclass ssl_engine_set_failed = some error
superclass send_error = some error
superclass recv_error = some error
superclass share_in_use = some error
superclass conv_failed = some error
superclass conv_reqd = some error
superclass remote_file_not_found = some error
superclass again = some error
superclass ssl_certificate = some error
superclass ssl_cipher = some error
superclass sslca_certificate = some error
superclass bad_content_encoding = some error
superclass ssl_cacert_badfile = some error
superclass sslcrl_badfile = some error
superclass ssl_issuer_error = some error
superclass unsafe_destination = some error
superclass ssl_shutdown_failed = some error
superclass ssh = some error
superclass multi_failed_init = some error
superclass multi_call_multi_perform = some error
superclass multi_bad_handle = some error
superclass multi_bad_easy_handle = some error
superclass multi_out_of_memory = some error
superclass multi_internal_error = some error
superclass multi_bad_socket = some error
superclass multi_added_already = some error
superclass multi_unknown_option = some error
superclass ldap_invalid_url = some ldap_error
superclass file_size_exceeded = some error
superclass ftpssl_failed = some ftp_error
superclass send_failed_rewind = some error
superclass ssl_engine_init_failed = some error
superclass login_denied = some error
superclass tftp_not_found = some tftp_error
superclass tftp_permission = some tftp_error
superclass tftp_disk_full = some tftp_error
superclass tftp_illegal_operation = some tftp_error
superclass tftp_unknown_id = some tftp_error
superclass tftp_file_exists = some tftp_error
superclass tftp_no_such_user = some tftp_error
superclass invalid_post_field = some error
superclass ftppret_failed = some ftp_error
superclass rtsp_cseq_error = some rtsp_error
superclass rtsp_session_error = some rtsp_error
superclass ftp_bad_file_list = some ftp_error
superclass chunk_failed = some error
superclass no_connection_available = some error
superclass ssl_pinned_pub_key_not_match = some error
superclass ssl_invalid_cert_status = some error
superclass http2_stream = some http_error
