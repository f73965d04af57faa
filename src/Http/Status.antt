-- ===== src/Http/Status.antt =====
-- Status codes and their texts: include/angel/httplib.h and src/httplib/httplib.cc.
use angel.Prelude.{ℕ, List, codes}

pub data StatusCode : Type 0 where
  continue : StatusCode
  switching_protocols : StatusCode
  ok : StatusCode
  created : StatusCode
  accepted : StatusCode
  non_authoritative_information : StatusCode
  no_content : StatusCode
  reset_content : StatusCode
  partial_content : StatusCode
  multiple_choices : StatusCode
  moved_permanently : StatusCode
  found : StatusCode
  see_other : StatusCode
  not_modified : StatusCode
  use_proxy : StatusCode
  temporary_redirect : StatusCode
  bad_request : StatusCode
  unauthorized : StatusCode
  forbidden : StatusCode
  not_found : StatusCode
  method_not_allowed : StatusCode
  not_acceptable : StatusCode
  proxy_authentication_required : StatusCode
  request_timeout : StatusCode
  conflict : StatusCode
  gone : StatusCode
  length_required : StatusCode
  precondition_failed : StatusCode
  request_entity_too_large : StatusCode
  request_uri_too_long : StatusCode
  unsupported_media_type : StatusCode
  requested_range_not_satisfiable : StatusCode
  expectation_failed : StatusCode
  internal_server_error : StatusCode
  not_implemented : StatusCode
  bad_gateway : StatusCode
  service_unavailable : StatusCode
  gateway_timeout : StatusCode
  http_version_not_supported : StatusCode

abbrev pub number : StatusCode → ℕ
number continue = 100
number switching_protocols = 101
number ok = 200
number created = 201
number accepted = 202
number non_authoritative_information = 203
number no_content = 204
number reset_content = 205
number partial_content = 206
number multiple_choices = 300
number moved_permanently = 301
number found = 302
number see_other = 303
number not_modified = 304
number use_proxy = 305
number temporary_redirect = 307
number bad_request = 400
number unauthorized = 401
number forbidden = 403
number not_found = 404
number method_not_allowed = 405
number not_acceptable = 406
number proxy_authentication_required = 407
number request_timeout = 408
number conflict = 409
number gone = 410
number length_required = 411
number precondition_failed = 412
number request_entity_too_large = 413
number request_uri_too_long = 414
number unsupported_media_type = 415
number requested_range_not_satisfiable = 416
number expectation_failed = 417
number internal_server_error = 500
number not_implemented = 501
number bad_gateway = 502
number service_unavailable = 503
number gateway_timeout = 504
number http_version_not_supported = 505

abbrev pub to_str : StatusCode → List ℕ
to_str continue = codes "Continue"
to_str switching_protocols = codes "Switching Protocols"
to_str ok = codes "OK"
to_str created = codes "Created"
to_str accepted = codes "Accepted"
to_str non_authoritative_information = codes "Non Authoritative Information"
to_str no_content = codes "No Content"
to_str reset_content = codes "Reset Content"
to_str partial_content = codes "Partial Content"
to_str multiple_choices = codes "Multiple Choices"
to_str moved_permanently = codes "Moved Permanently"
to_str found = codes "Found"
to_str see_other = codes "See Other"
to_str not_modified = codes "Not Modified"
to_str use_proxy = codes "Use Proxy"
to_str temporary_redirect = codes "Temporary Redirect"
to_str bad_request = codes "Bad Request"
to_str unauthorized = codes "Unauthorized"
to_str forbidden = codes "Forbidden"
to_str not_found = codes "Not Found"
to_str method_not_allowed = codes "Method Not Allowed"
to_str not_acceptable = codes "Not Acceptable"
to_str proxy_authentication_required = codes "Proxy Authentication Required"
to_str request_timeout = codes "Request Timeout"
to_str conflict = codes "Conflict"
to_str gone = codes "Gone"
to_str length_required = codes "Length Required"
to_str precondition_failed = codes "Precondition Failed"
to_str request_entity_too_large = codes "Request Entity Too Large"
to_str request_uri_too_long = codes "Request-URI Too Long"
to_str unsupported_media_type = codes "Unsupported Media Type"
to_str requested_range_not_satisfiable = codes "Requested Range Not Satisfiable"
to_str expectation_failed = codes "Expectation Failed"
to_str internal_server_error = codes "Internal Server Error"
to_str not_implemented = codes "Not Implemented"
to_str bad_gateway = codes "Bad Gateway"
to_str service_unavailable = codes "Service Unavailable"
to_str gateway_timeout = codes "Gateway Timeout"
to_str http_version_not_supported = codes "Http Version Not Supported"
