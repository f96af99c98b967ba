-- ===== src/Codes/Descriptions.antt =====
-- codes.go: the texts of the codes, which describe packets.
use gldap.Base.{List, Text, [], codes, if◌then◌else◌, int_eq, low_bits, pos, ℕ, ℤ, ◌==◌, ◌∷◌}
use gldap.Codes.{
  application_abandon_request, application_add_request, application_add_response,
  application_bind_request, application_bind_response, application_compare_request,
  application_compare_response, application_del_request, application_del_response,
  application_extended_request, application_extended_response, application_modify_dn_request,
  application_modify_dn_response, application_modify_request, application_modify_response,
  application_search_request, application_search_result_done, application_search_result_entry,
  application_search_result_reference, application_unbind_request, result_entry_already_exists,
  result_inappropriate_matching, result_invalid_credentials, result_no_such_object,
  result_operations_error, result_success, result_unwilling_to_perform,
}
use gldap.Codes.Results.{
  result_admin_limit_exceeded, result_affects_multiple_dsas, result_alias_dereferencing_problem,
  result_alias_problem, result_ambiguous_response, result_assertion_failed,
  result_attribute_or_value_exists, result_auth_method_not_supported, result_auth_unknown,
  result_authorization_denied, result_busy, result_canceled, result_cannot_cancel,
  result_client_loop, result_compare_false, result_compare_true, result_confidentiality_required,
  result_connect_error, result_constraint_violation, result_control_not_found,
  result_decoding_error, result_encoding_error, result_filter_error,
  result_inappropriate_authentication, result_insufficient_access_rights,
  result_intermediate_response, result_invalid_attribute_syntax, result_invalid_dn_syntax,
  result_invalid_response, result_is_leaf, result_local_error, result_loop_detect,
  result_more_results_to_return, result_naming_violation, result_no_memory,
  result_no_results_returned, result_no_such_attribute, result_no_such_operation,
  result_not_allowed_on_non_leaf, result_not_allowed_on_rdn, result_not_supported,
  result_object_class_mods_prohibited, result_object_class_violation, result_offset_range_error,
  result_other, result_param_error, result_protocol_error, result_referral,
  result_referral_limit_exceeded, result_results_too_large, result_sasl_bind_in_progress,
  result_server_down, result_size_limit_exceeded, result_sort_control_missing,
  result_strong_auth_required, result_sync_refresh_required, result_time_limit_exceeded,
  result_timeout, result_tls_not_supported, result_too_late, result_unavailable,
  result_unavailable_critical_extension, result_undefined_attribute_type, result_unknown_type,
  result_user_canceled, result_virtual_list_view_error_or_control_error,
}

-- `ResultCodeMap`
unfoldable pub result_code_map : List (ℤ × Text)
result_code_map =
    (result_success, codes "Success")
    ∷ (result_operations_error, codes "Operations Error")
    ∷ (result_protocol_error, codes "Protocol Error")
    ∷ (result_time_limit_exceeded, codes "Time Limit Exceeded")
    ∷ (result_size_limit_exceeded, codes "Size Limit Exceeded")
    ∷ (result_compare_false, codes "Compare False")
    ∷ (result_compare_true, codes "Compare True")
    ∷ (result_auth_method_not_supported, codes "Auth Method Not Supported")
    ∷ (result_strong_auth_required, codes "Strong Auth Required")
    ∷ (result_referral, codes "Referral")
    ∷ (result_admin_limit_exceeded, codes "Admin Limit Exceeded")
    ∷ (result_unavailable_critical_extension, codes "Unavailable Critical Extension")
    ∷ (result_confidentiality_required, codes "Confidentiality Required")
    ∷ (result_sasl_bind_in_progress, codes "Sasl Bind In Progress")
    ∷ (result_no_such_attribute, codes "No Such Attribute")
    ∷ (result_undefined_attribute_type, codes "Undefined Attribute Type")
    ∷ (result_inappropriate_matching, codes "Inappropriate Matching")
    ∷ (result_constraint_violation, codes "Constraint Violation")
    ∷ (result_attribute_or_value_exists, codes "Attribute Or Value Exists")
    ∷ (result_invalid_attribute_syntax, codes "Invalid Attribute Syntax")
    ∷ (result_no_such_object, codes "No Such Object")
    ∷ (result_alias_problem, codes "Alias Problem")
    ∷ (result_invalid_dn_syntax, codes "Invalid DN Syntax")
    ∷ (result_is_leaf, codes "Is Leaf")
    ∷ (result_alias_dereferencing_problem, codes "Alias Dereferencing Problem")
    ∷ (result_inappropriate_authentication, codes "Inappropriate Authentication")
    ∷ (result_invalid_credentials, codes "Invalid Credentials")
    ∷ (result_insufficient_access_rights, codes "Insufficient Access Rights")
    ∷ (result_busy, codes "Busy")
    ∷ (result_unavailable, codes "Unavailable")
    ∷ (result_unwilling_to_perform, codes "Unwilling To Perform")
    ∷ (result_loop_detect, codes "Loop Detect")
    ∷ (result_sort_control_missing, codes "Sort Control Missing")
    ∷ (result_offset_range_error, codes "Result Offset Range Error")
    ∷ (result_naming_violation, codes "Naming Violation")
    ∷ (result_object_class_violation, codes "Object Class Violation")
    ∷ (result_results_too_large, codes "Results Too Large")
    ∷ (result_not_allowed_on_non_leaf, codes "Not Allowed On Non Leaf")
    ∷ (result_not_allowed_on_rdn, codes "Not Allowed On RDN")
    ∷ (result_entry_already_exists, codes "Entry Already Exists")
    ∷ (result_object_class_mods_prohibited, codes "Object Class Mods Prohibited")
    ∷ (result_affects_multiple_dsas, codes "Affects Multiple DSAs")
    ∷ (
      result_virtual_list_view_error_or_control_error,
      codes "Failed because of a problem related to the virtual list view",
    )
    ∷ (result_other, codes "Other")
    ∷ (result_server_down, codes "Cannot establish a connection")
    ∷ (result_local_error, codes "An error occurred")
    ∷ (result_encoding_error, codes " encountered an error while encoding")
    ∷ (result_decoding_error, codes " encountered an error while decoding")
    ∷ (result_timeout, codes " timeout while waiting for a response from the server")
    ∷ (result_auth_unknown, codes "The auth method requested in a bind request is unknown")
    ∷ (result_filter_error, codes "An error occurred while encoding the given search filter")
    ∷ (result_user_canceled, codes "The user canceled the operation")
    ∷ (result_param_error, codes "An invalid parameter was specified")
    ∷ (result_no_memory, codes "Out of memory error")
    ∷ (result_connect_error, codes "A connection to the server could not be established")
    ∷ (result_not_supported, codes "An attempt has been made to use a feature not supported ")
    ∷ (
      result_control_not_found,
      codes "The controls required to perform the requested operation were not found",
    )
    ∷ (result_no_results_returned, codes "No results were returned from the server")
    ∷ (result_more_results_to_return, codes "There are more results in the chain of results")
    ∷ (result_client_loop, codes "A loop has been detected. For example when following referrals")
    ∷ (result_referral_limit_exceeded, codes "The referral hop limit has been exceeded")
    ∷ (result_canceled, codes "Operation was canceled")
    ∷ (
      result_no_such_operation,
      codes "Server has no knowledge of the operation requested for cancellation",
    )
    ∷ (result_too_late, codes "Too late to cancel the outstanding operation")
    ∷ (
      result_cannot_cancel,
      codes
          "The identified operation does not support cancellation or the cancel operation cannot be performed",
    )
    ∷ (
      result_assertion_failed,
      codes
          "An assertion control given in the  operation evaluated to false causing the operation to not be performed",
    )
    ∷ (result_sync_refresh_required, codes "Refresh Required")
    ∷ (result_invalid_response, codes "Invalid Response")
    ∷ (result_ambiguous_response, codes "Ambiguous Response")
    ∷ (result_tls_not_supported, codes "Tls Not Supported")
    ∷ (result_intermediate_response, codes "Intermediate Response")
    ∷ (result_unknown_type, codes "Unknown Type")
    ∷ (result_authorization_denied, codes "Authorization Denied")
    ∷ []

-- `ApplicationCodeMap`
unfoldable pub application_code_map : List (ℕ × Text)
application_code_map =
    (application_bind_request, codes "Bind Request")
    ∷ (application_bind_response, codes "Bind Response")
    ∷ (application_unbind_request, codes "Unbind Request")
    ∷ (application_search_request, codes "Search Request")
    ∷ (application_search_result_entry, codes "Search Result Entry")
    ∷ (application_search_result_done, codes "Search Result Done")
    ∷ (application_modify_request, codes "Modify Request")
    ∷ (application_modify_response, codes "Modify Response")
    ∷ (application_add_request, codes "Add Request")
    ∷ (application_add_response, codes "Add Response")
    ∷ (application_del_request, codes "Del Request")
    ∷ (application_del_response, codes "Del Response")
    ∷ (application_modify_dn_request, codes "Modify DN Request")
    ∷ (application_modify_dn_response, codes "Modify DN Response")
    ∷ (application_compare_request, codes "Compare Request")
    ∷ (application_compare_response, codes "Compare Response")
    ∷ (application_abandon_request, codes "Abandon Request")
    ∷ (application_search_result_reference, codes "Search Result Reference")
    ∷ (application_extended_request, codes "Extended Request")
    ∷ (application_extended_response, codes "Extended Response")
    ∷ []

abbrev find_result : List (ℤ × Text) → ℤ → Text
find_result [] code = []
find_result ((key, text) ∷ rest) code = if int_eq key code then text else find_result rest code

abbrev find_application : List (ℕ × Text) → ℕ → Text
find_application [] code = []
find_application ((key, text) ∷ rest) code =
    if key == code then text else find_application rest code

-- `ResultCodeMap[uint16(r.code)]`, "" for a missing key
unfoldable pub result_text : ℤ → Text
result_text code = find_result result_code_map (pos (low_bits 16 code))

-- `ApplicationCodeMap[uint8(r.applicationCode)]`, "" for a missing key
unfoldable pub application_text : ℤ → Text
application_text code = find_application application_code_map (low_bits 8 code)
