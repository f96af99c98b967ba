-- ===== src/Codes/Results.antt =====
-- codes.go: the result codes that the program does not send itself.
use gldap.Base.{pos, ℤ}

abbrev pub result_protocol_error : ℤ
result_protocol_error = pos 2

abbrev pub result_time_limit_exceeded : ℤ
result_time_limit_exceeded = pos 3

abbrev pub result_size_limit_exceeded : ℤ
result_size_limit_exceeded = pos 4

abbrev pub result_compare_false : ℤ
result_compare_false = pos 5

abbrev pub result_compare_true : ℤ
result_compare_true = pos 6

abbrev pub result_auth_method_not_supported : ℤ
result_auth_method_not_supported = pos 7

abbrev pub result_strong_auth_required : ℤ
result_strong_auth_required = pos 8

abbrev pub result_referral : ℤ
result_referral = pos 10

abbrev pub result_admin_limit_exceeded : ℤ
result_admin_limit_exceeded = pos 11

abbrev pub result_unavailable_critical_extension : ℤ
result_unavailable_critical_extension = pos 12

abbrev pub result_confidentiality_required : ℤ
result_confidentiality_required = pos 13

abbrev pub result_sasl_bind_in_progress : ℤ
result_sasl_bind_in_progress = pos 14

abbrev pub result_no_such_attribute : ℤ
result_no_such_attribute = pos 16

abbrev pub result_undefined_attribute_type : ℤ
result_undefined_attribute_type = pos 17

abbrev pub result_constraint_violation : ℤ
result_constraint_violation = pos 19

abbrev pub result_attribute_or_value_exists : ℤ
result_attribute_or_value_exists = pos 20

abbrev pub result_invalid_attribute_syntax : ℤ
result_invalid_attribute_syntax = pos 21

abbrev pub result_alias_problem : ℤ
result_alias_problem = pos 33

abbrev pub result_invalid_dn_syntax : ℤ
result_invalid_dn_syntax = pos 34

abbrev pub result_is_leaf : ℤ
result_is_leaf = pos 35

abbrev pub result_alias_dereferencing_problem : ℤ
result_alias_dereferencing_problem = pos 36

abbrev pub result_inappropriate_authentication : ℤ
result_inappropriate_authentication = pos 48

abbrev pub result_insufficient_access_rights : ℤ
result_insufficient_access_rights = pos 50

abbrev pub result_busy : ℤ
result_busy = pos 51

abbrev pub result_unavailable : ℤ
result_unavailable = pos 52

abbrev pub result_loop_detect : ℤ
result_loop_detect = pos 54

abbrev pub result_sort_control_missing : ℤ
result_sort_control_missing = pos 60

abbrev pub result_offset_range_error : ℤ
result_offset_range_error = pos 61

abbrev pub result_naming_violation : ℤ
result_naming_violation = pos 64

abbrev pub result_object_class_violation : ℤ
result_object_class_violation = pos 65

abbrev pub result_not_allowed_on_non_leaf : ℤ
result_not_allowed_on_non_leaf = pos 66

abbrev pub result_not_allowed_on_rdn : ℤ
result_not_allowed_on_rdn = pos 67

abbrev pub result_object_class_mods_prohibited : ℤ
result_object_class_mods_prohibited = pos 69

abbrev pub result_results_too_large : ℤ
result_results_too_large = pos 70

abbrev pub result_affects_multiple_dsas : ℤ
result_affects_multiple_dsas = pos 71

abbrev pub result_virtual_list_view_error_or_control_error : ℤ
result_virtual_list_view_error_or_control_error = pos 76

abbrev pub result_other : ℤ
result_other = pos 80

abbrev pub result_server_down : ℤ
result_server_down = pos 81

abbrev pub result_local_error : ℤ
result_local_error = pos 82

abbrev pub result_encoding_error : ℤ
result_encoding_error = pos 83

abbrev pub result_decoding_error : ℤ
result_decoding_error = pos 84

abbrev pub result_timeout : ℤ
result_timeout = pos 85

abbrev pub result_auth_unknown : ℤ
result_auth_unknown = pos 86

abbrev pub result_filter_error : ℤ
result_filter_error = pos 87

abbrev pub result_user_canceled : ℤ
result_user_canceled = pos 88

abbrev pub result_param_error : ℤ
result_param_error = pos 89

abbrev pub result_no_memory : ℤ
result_no_memory = pos 90

abbrev pub result_connect_error : ℤ
result_connect_error = pos 91

abbrev pub result_not_supported : ℤ
result_not_supported = pos 92

abbrev pub result_control_not_found : ℤ
result_control_not_found = pos 93

abbrev pub result_no_results_returned : ℤ
result_no_results_returned = pos 94

abbrev pub result_more_results_to_return : ℤ
result_more_results_to_return = pos 95

abbrev pub result_client_loop : ℤ
result_client_loop = pos 96

abbrev pub result_referral_limit_exceeded : ℤ
result_referral_limit_exceeded = pos 97

abbrev pub result_invalid_response : ℤ
result_invalid_response = pos 100

abbrev pub result_ambiguous_response : ℤ
result_ambiguous_response = pos 101

abbrev pub result_tls_not_supported : ℤ
result_tls_not_supported = pos 112

abbrev pub result_intermediate_response : ℤ
result_intermediate_response = pos 113

abbrev pub result_unknown_type : ℤ
result_unknown_type = pos 114

abbrev pub result_canceled : ℤ
result_canceled = pos 118

abbrev pub result_no_such_operation : ℤ
result_no_such_operation = pos 119

abbrev pub result_too_late : ℤ
result_too_late = pos 120

abbrev pub result_cannot_cancel : ℤ
result_cannot_cancel = pos 121

abbrev pub result_assertion_failed : ℤ
result_assertion_failed = pos 122

abbrev pub result_authorization_denied : ℤ
result_authorization_denied = pos 123

abbrev pub result_sync_refresh_required : ℤ
result_sync_refresh_required = pos 4096
