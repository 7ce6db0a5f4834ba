-- ===== src/Proto/Const.antt =====
-- internal/proto/const.go: the protocol's constants. Bytes and offsets are numbers; int32 and TypeCode
-- (int16) constants are integers.
use go_hsql.Base.{ℕ}
use go_hsql.Base.Int.{ℤ, pos, negsuc}

abbrev pub network_compatibility_version_int : ℤ
network_compatibility_version_int = negsuc 2030399

abbrev pub default_port : ℤ
default_port = pos 9001

abbrev pub mode_none : ℕ
mode_none = 0

abbrev pub mode_update_count : ℕ
mode_update_count = 1

abbrev pub mode_error : ℕ
mode_error = 2

abbrev pub mode_data : ℕ
mode_data = 3

abbrev pub mode_prepare_ack : ℕ
mode_prepare_ack = 4

abbrev pub mode_sql_cancel : ℕ
mode_sql_cancel = 5

abbrev pub mode_set_session_attr : ℕ
mode_set_session_attr = 6

abbrev pub mode_get_session_attr : ℕ
mode_get_session_attr = 7

abbrev pub mode_batch_exec_direct : ℕ
mode_batch_exec_direct = 8

abbrev pub mode_batch_execute : ℕ
mode_batch_execute = 9

abbrev pub mode_reset_session : ℕ
mode_reset_session = 10

abbrev pub mode_connect_acknowledge : ℕ
mode_connect_acknowledge = 11

abbrev pub mode_prepare_commit : ℕ
mode_prepare_commit = 12

abbrev pub mode_request_data : ℕ
mode_request_data = 13

abbrev pub mode_data_rows : ℕ
mode_data_rows = 14

abbrev pub mode_data_head : ℕ
mode_data_head = 15

abbrev pub mode_batch_exec_response : ℕ
mode_batch_exec_response = 16

abbrev pub mode_param_metadata : ℕ
mode_param_metadata = 17

abbrev pub mode_large_object_op : ℕ
mode_large_object_op = 18

abbrev pub mode_warning : ℕ
mode_warning = 19

abbrev pub mode_generated : ℕ
mode_generated = 20

abbrev pub mode_execute_invalid : ℕ
mode_execute_invalid = 21

abbrev pub mode_connect : ℕ
mode_connect = 31

abbrev pub mode_disconnect : ℕ
mode_disconnect = 32

abbrev pub mode_end_tran : ℕ
mode_end_tran = 33

abbrev pub mode_exec_direct : ℕ
mode_exec_direct = 34

abbrev pub mode_execute : ℕ
mode_execute = 35

abbrev pub mode_free_stmt : ℕ
mode_free_stmt = 36

abbrev pub mode_prepare : ℕ
mode_prepare = 37

abbrev pub mode_set_connect_attr : ℕ
mode_set_connect_attr = 38

abbrev pub mode_start_tran : ℕ
mode_start_tran = 39

abbrev pub mode_close_result : ℕ
mode_close_result = 40

abbrev pub mode_update_result : ℕ
mode_update_result = 41

abbrev pub mode_value : ℕ
mode_value = 42

abbrev pub mode_call_response : ℕ
mode_call_response = 43

abbrev pub mode_change_set : ℕ
mode_change_set = 44

abbrev pub tx_commit : ℤ
tx_commit = pos 0

abbrev pub tx_rollback : ℤ
tx_rollback = pos 1

abbrev pub tx_savepoint_name_rollback : ℤ
tx_savepoint_name_rollback = pos 2

abbrev pub tx_savepoint_name_release : ℤ
tx_savepoint_name_release = pos 4

abbrev pub tx_commit_and_chain : ℤ
tx_commit_and_chain = pos 6

abbrev pub tx_rollback_and_chain : ℤ
tx_rollback_and_chain = pos 7

abbrev pub tx_prepare_commit : ℤ
tx_prepare_commit = pos 12

abbrev pub connect_attr_savepoint_name : ℤ
connect_attr_savepoint_name = pos 10027

abbrev pub action_update_cursor : ℤ
action_update_cursor = pos 91

abbrev pub action_delete_cursor : ℤ
action_delete_cursor = pos 18

abbrev pub action_insert_cursor : ℤ
action_insert_cursor = pos 55

abbrev pub rs_returnable : ℕ
rs_returnable = 1

abbrev pub rs_holdable : ℕ
rs_holdable = 2

abbrev pub rs_scrollable : ℕ
rs_scrollable = 4

abbrev pub rs_updatable : ℕ
rs_updatable = 8

abbrev pub rs_sensitive : ℕ
rs_sensitive = 16

abbrev pub rs_is_held : ℕ
rs_is_held = 32

abbrev pub sys_offset_row_id : ℕ
sys_offset_row_id = 0

abbrev pub sys_offset_row_status : ℕ
sys_offset_row_status = 1

abbrev pub sys_offset_row_num : ℕ
sys_offset_row_num = 2

abbrev pub attr_isolation : ℤ
attr_isolation = pos 0

abbrev pub attr_autocommit : ℤ
attr_autocommit = pos 1

abbrev pub attr_connection_readonly : ℤ
attr_connection_readonly = pos 2

abbrev pub attr_catalog : ℤ
attr_catalog = pos 3

abbrev pub attr_timezone : ℤ
attr_timezone = pos 4

abbrev pub attr_pos_limit : ℕ
attr_pos_limit = 4

abbrev pub tx_read_uncommitted : ℤ
tx_read_uncommitted = pos 1

abbrev pub tx_read_committed : ℤ
tx_read_committed = pos 2

abbrev pub tx_repeatable_read : ℤ
tx_repeatable_read = pos 4

abbrev pub tx_serializable : ℤ
tx_serializable = pos 8

abbrev pub statement_return_any : ℕ
statement_return_any = 0

abbrev pub statement_return_count : ℕ
statement_return_count = 1

abbrev pub statement_return_result : ℕ
statement_return_result = 2

abbrev pub return_generated_keys : ℕ
return_generated_keys = 1

abbrev pub return_no_generated_keys : ℕ
return_no_generated_keys = 2

abbrev pub return_generated_keys_col_names : ℕ
return_generated_keys_col_names = 11

abbrev pub return_generated_keys_col_idx : ℕ
return_generated_keys_col_idx = 21

abbrev pub return_primary_keys : ℕ
return_primary_keys = 31

abbrev pub lob_req_get_bytes : ℤ
lob_req_get_bytes = pos 1

abbrev pub lob_req_set_bytes : ℤ
lob_req_set_bytes = pos 2

abbrev pub lob_req_get_chars : ℤ
lob_req_get_chars = pos 3

abbrev pub lob_req_set_chars : ℤ
lob_req_set_chars = pos 4

abbrev pub lob_req_create_bytes : ℤ
lob_req_create_bytes = pos 7

abbrev pub lob_req_create_chars : ℤ
lob_req_create_chars = pos 8

abbrev pub lob_req_get_length : ℤ
lob_req_get_length = pos 10

abbrev pub lob_req_get_lob : ℤ
lob_req_get_lob = pos 11

abbrev pub lob_resp_get_bytes : ℤ
lob_resp_get_bytes = pos 21

abbrev pub lob_resp_set : ℤ
lob_resp_set = pos 22

abbrev pub lob_resp_get_chars : ℤ
lob_resp_get_chars = pos 23

abbrev pub lob_resp_create_bytes : ℤ
lob_resp_create_bytes = pos 27

abbrev pub lob_resp_create_chars : ℤ
lob_resp_create_chars = pos 28

abbrev pub lob_resp_truncate : ℤ
lob_resp_truncate = pos 29

abbrev pub default_rs_properties : ℕ
default_rs_properties = 0

abbrev pub sql_all_types : ℤ
sql_all_types = pos 0

abbrev pub sql_char : ℤ
sql_char = pos 1

abbrev pub sql_numeric : ℤ
sql_numeric = pos 2

abbrev pub sql_decimal : ℤ
sql_decimal = pos 3

abbrev pub sql_integer : ℤ
sql_integer = pos 4

abbrev pub sql_smallint : ℤ
sql_smallint = pos 5

abbrev pub sql_float : ℤ
sql_float = pos 6

abbrev pub sql_real : ℤ
sql_real = pos 7

abbrev pub sql_double : ℤ
sql_double = pos 8

abbrev pub sql_varchar : ℤ
sql_varchar = pos 12

abbrev pub sql_bit : ℤ
sql_bit = pos 14

abbrev pub sql_bit_varying : ℤ
sql_bit_varying = pos 15

abbrev pub sql_boolean : ℤ
sql_boolean = pos 16

abbrev pub sql_bigint : ℤ
sql_bigint = pos 25

abbrev pub sql_blob : ℤ
sql_blob = pos 30

abbrev pub sql_clob : ℤ
sql_clob = pos 40

abbrev pub sql_binary : ℤ
sql_binary = pos 60

abbrev pub sql_varbinary : ℤ
sql_varbinary = pos 61

abbrev pub sql_date : ℤ
sql_date = pos 91

abbrev pub sql_time : ℤ
sql_time = pos 92

abbrev pub sql_timestamp : ℤ
sql_timestamp = pos 93

abbrev pub sql_time_tz : ℤ
sql_time_tz = pos 94

abbrev pub sql_timestamp_tz : ℤ
sql_timestamp_tz = pos 95

abbrev pub sql_interval_year : ℤ
sql_interval_year = pos 101

abbrev pub sql_interval_month : ℤ
sql_interval_month = pos 102

abbrev pub sql_interval_day : ℤ
sql_interval_day = pos 103

abbrev pub sql_interval_hour : ℤ
sql_interval_hour = pos 104

abbrev pub sql_interval_minute : ℤ
sql_interval_minute = pos 105

abbrev pub sql_interval_second : ℤ
sql_interval_second = pos 106

abbrev pub sql_interval_year_to_month : ℤ
sql_interval_year_to_month = pos 107

abbrev pub sql_interval_day_to_hour : ℤ
sql_interval_day_to_hour = pos 108

abbrev pub sql_interval_day_to_minute : ℤ
sql_interval_day_to_minute = pos 109

abbrev pub sql_interval_day_to_second : ℤ
sql_interval_day_to_second = pos 110

abbrev pub sql_interval_hour_to_minute : ℤ
sql_interval_hour_to_minute = pos 111

abbrev pub sql_interval_hour_to_second : ℤ
sql_interval_hour_to_second = pos 112

abbrev pub sql_interval_minute_to_second : ℤ
sql_interval_minute_to_second = pos 113

abbrev pub sql_tinyint : ℤ
sql_tinyint = negsuc 5

abbrev pub sql_guid : ℤ
sql_guid = negsuc 10

abbrev pub sql_array : ℤ
sql_array = pos 50

abbrev pub sql_other : ℤ
sql_other = pos 1111

abbrev pub mode_upper_limit : ℕ
mode_upper_limit = 48

abbrev pub param_mode_unknown : ℕ
param_mode_unknown = 0

abbrev pub param_mode_in : ℕ
param_mode_in = 1

abbrev pub param_mode_in_out : ℕ
param_mode_in_out = 2

abbrev pub param_mode_out : ℕ
param_mode_out = 4

abbrev pub batch_execute_failed : ℤ
batch_execute_failed = negsuc 2

abbrev pub batch_success_no_info : ℤ
batch_success_no_info = negsuc 1
