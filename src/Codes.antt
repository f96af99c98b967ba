-- ===== src/Codes.antt =====
-- codes.go: the application codes, and the result codes that the program itself sends. The other
-- result codes and the texts of all are in the modules below.
pub mod Results
pub mod Descriptions
use gldap.Base.{pos, ℕ, ℤ}

abbrev pub application_bind_request : ℕ
application_bind_request = 0

abbrev pub application_bind_response : ℕ
application_bind_response = 1

abbrev pub application_unbind_request : ℕ
application_unbind_request = 2

abbrev pub application_search_request : ℕ
application_search_request = 3

abbrev pub application_search_result_entry : ℕ
application_search_result_entry = 4

abbrev pub application_search_result_done : ℕ
application_search_result_done = 5

abbrev pub application_modify_request : ℕ
application_modify_request = 6

abbrev pub application_modify_response : ℕ
application_modify_response = 7

abbrev pub application_add_request : ℕ
application_add_request = 8

abbrev pub application_add_response : ℕ
application_add_response = 9

abbrev pub application_del_request : ℕ
application_del_request = 10

abbrev pub application_del_response : ℕ
application_del_response = 11

abbrev pub application_extended_request : ℕ
application_extended_request = 23

abbrev pub application_extended_response : ℕ
application_extended_response = 24

abbrev pub application_modify_dn_request : ℕ
application_modify_dn_request = 12

abbrev pub application_modify_dn_response : ℕ
application_modify_dn_response = 13

abbrev pub application_compare_request : ℕ
application_compare_request = 14

abbrev pub application_compare_response : ℕ
application_compare_response = 15

abbrev pub application_abandon_request : ℕ
application_abandon_request = 16

abbrev pub application_search_result_reference : ℕ
application_search_result_reference = 19

abbrev pub result_success : ℤ
result_success = pos 0

abbrev pub result_operations_error : ℤ
result_operations_error = pos 1

abbrev pub result_inappropriate_matching : ℤ
result_inappropriate_matching = pos 18

abbrev pub result_no_such_object : ℤ
result_no_such_object = pos 32

abbrev pub result_invalid_credentials : ℤ
result_invalid_credentials = pos 49

abbrev pub result_unwilling_to_perform : ℤ
result_unwilling_to_perform = pos 53

abbrev pub result_entry_already_exists : ℤ
result_entry_already_exists = pos 68
