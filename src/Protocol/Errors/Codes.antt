-- ===== src/Protocol/Errors/Codes.antt =====
-- The number of an error kind, `err as u16`, `From<u16>` and `sqlstate`: src/proxy/src/protocol/mysql/error_codes.rs.
pub mod Kind
pub use Kind.*
use haentgl.Prelude.{ℕ, Option, List, [], ◌∷◌}
use haentgl.Prelude.Arms.{first_arm}

-- The discriminants, `self as u16`.
unfoldable pub code : ErrorKind → ℕ
code er_hashchk = 1000
code er_nisamchk = 1001
code er_no = 1002
code er_yes = 1003
code er_cant_create_file = 1004
code er_cant_create_table = 1005
code er_cant_create_db = 1006
code er_db_create_exists = 1007
code er_db_drop_exists = 1008
code er_db_drop_delete = 1009
code er_db_drop_rmdir = 1010
code er_cant_delete_file = 1011
code er_cant_find_system_rec = 1012
code er_cant_get_stat = 1013
code er_cant_get_wd = 1014
code er_cant_lock = 1015
code er_cant_open_file = 1016
code er_file_not_found = 1017
code er_cant_read_dir = 1018
code er_cant_set_wd = 1019
code er_checkread = 1020
code er_disk_full = 1021
code er_dup_key = 1022
code er_error_on_close = 1023
code er_error_on_read = 1024
code er_error_on_rename = 1025
code er_error_on_write = 1026
code er_file_used = 1027
code er_filsort_abort = 1028
code er_form_not_found = 1029
code er_get_errn = 1030
code er_illegal_ha = 1031
code er_key_not_found = 1032
code er_not_form_file = 1033
code er_not_keyfile = 1034
code er_old_keyfile = 1035
code er_open_as_readonly = 1036
code er_outofmemory = 1037
code er_out_of_sortmemory = 1038
code er_unexpected_eof = 1039
code er_con_count_error = 1040
code er_out_of_resources = 1041
code er_bad_host_error = 1042
code er_handshake_error = 1043
code er_dbaccess_denied_error = 1044
code er_access_denied_error = 1045
code er_no_db_error = 1046
code er_unknown_com_error = 1047
code er_bad_null_error = 1048
code er_bad_db_error = 1049
code er_table_exists_error = 1050
code er_bad_table_error = 1051
code er_non_uniq_error = 1052
code er_server_shutdown = 1053
code er_bad_field_error = 1054
code er_wrong_field_with_group = 1055
code er_wrong_group_field = 1056
code er_wrong_sum_select = 1057
code er_wrong_value_count = 1058
code er_too_long_ident = 1059
code er_dup_fieldname = 1060
code er_dup_keyname = 1061
code er_dup_entry = 1062
code er_wrong_field_spec = 1063
code er_parse_error = 1064
code er_empty_query = 1065
code er_nonuniq_table = 1066
code er_invalid_default = 1067
code er_multiple_pri_key = 1068
code er_too_many_keys = 1069
code er_too_many_key_parts = 1070
code er_too_long_key = 1071
code er_key_column_does_not_exits = 1072
code er_blob_used_as_key = 1073
code er_too_big_fieldlength = 1074
code er_wrong_auto_key = 1075
code er_ready = 1076
code er_normal_shutdown = 1077
code er_got_signal = 1078
code er_shutdown_complete = 1079
code er_forcing_close = 1080
code er_ipsock_error = 1081
code er_no_such_index = 1082
code er_wrong_field_terminators = 1083
code er_blobs_and_no_terminated = 1084
code er_textfile_not_readable = 1085
code er_file_exists_error = 1086
code er_load_inf = 1087
code er_alter_inf = 1088
code er_wrong_sub_key = 1089
code er_cant_remove_all_fields = 1090
code er_cant_drop_field_or_key = 1091
code er_insert_inf = 1092
code er_update_table_used = 1093
code er_no_such_thread = 1094
code er_kill_denied_error = 1095
code er_no_tables_used = 1096
code er_too_big_set = 1097
code er_no_unique_logfile = 1098
code er_table_not_locked_for_write = 1099
code er_table_not_locked = 1100
code er_blob_cant_have_default = 1101
code er_wrong_db_name = 1102
code er_wrong_table_name = 1103
code er_too_big_select = 1104
code er_unknown_error = 1105
code er_unknown_procedure = 1106
code er_wrong_paramcount_to_procedure = 1107
code er_wrong_parameters_to_procedure = 1108
code er_unknown_table = 1109
code er_field_specified_twice = 1110
code er_invalid_group_func_use = 1111
code er_unsupported_extension = 1112
code er_table_must_have_columns = 1113
code er_record_file_full = 1114
code er_unknown_character_set = 1115
code er_too_many_tables = 1116
code er_too_many_fields = 1117
code er_too_big_rowsize = 1118
code er_stack_overrun = 1119
code er_wrong_outer_join = 1120
code er_null_column_in_index = 1121
code er_cant_find_udf = 1122
code er_cant_initialize_udf = 1123
code er_udf_no_paths = 1124
code er_udf_exists = 1125
code er_cant_open_library = 1126
code er_cant_find_dl_entry = 1127
code er_function_not_defined = 1128
code er_host_is_blocked = 1129
code er_host_not_privileged = 1130
code er_password_anonymous_user = 1131
code er_password_not_allowed = 1132
code er_password_no_match = 1133
code er_update_inf = 1134
code er_cant_create_thread = 1135
code er_wrong_value_count_on_row = 1136
code er_cant_reopen_table = 1137
code er_invalid_use_of_null = 1138
code er_regexp_error = 1139
code er_mix_of_group_func_and_fields = 1140
code er_nonexisting_grant = 1141
code er_tableaccess_denied_error = 1142
code er_columnaccess_denied_error = 1143
code er_illegal_grant_for_table = 1144
code er_grant_wrong_host_or_user = 1145
code er_no_such_table = 1146
code er_nonexisting_table_grant = 1147
code er_not_allowed_command = 1148
code er_syntax_error = 1149
code er_delayed_cant_change_lock = 1150
code er_too_many_delayed_threads = 1151
code er_aborting_connection = 1152
code er_net_packet_too_large = 1153
code er_net_read_error_from_pipe = 1154
code er_net_fcntl_error = 1155
code er_net_packets_out_of_order = 1156
code er_net_uncompress_error = 1157
code er_net_read_error = 1158
code er_net_read_interrupted = 1159
code er_net_error_on_write = 1160
code er_net_write_interrupted = 1161
code er_too_long_string = 1162
code er_table_cant_handle_blob = 1163
code er_table_cant_handle_auto_increment = 1164
code er_delayed_insert_table_locked = 1165
code er_wrong_column_name = 1166
code er_wrong_key_column = 1167
code er_wrong_mrg_table = 1168
code er_dup_unique = 1169
code er_blob_key_without_length = 1170
code er_primary_cant_have_null = 1171
code er_too_many_rows = 1172
code er_requires_primary_key = 1173
code er_no_raid_compiled = 1174
code er_update_without_key_in_safe_mode = 1175
code er_key_does_not_exits = 1176
code er_check_no_such_table = 1177
code er_check_not_implemented = 1178
code er_cant_do_this_during_an_transaction = 1179
code er_error_during_commit = 1180
code er_error_during_rollback = 1181
code er_error_during_flush_logs = 1182
code er_error_during_checkpoint = 1183
code er_new_aborting_connection = 1184
code er_dump_not_implemented = 1185
code er_flush_master_binlog_closed = 1186
code er_index_rebuild = 1187
code er_master = 1188
code er_master_net_read = 1189
code er_master_net_write = 1190
code er_ft_matching_key_not_found = 1191
code er_lock_or_active_transaction = 1192
code er_unknown_system_variable = 1193
code er_crashed_on_usage = 1194
code er_crashed_on_repair = 1195
code er_warning_not_complete_rollback = 1196
code er_trans_cache_full = 1197
code er_slave_must_stop = 1198
code er_slave_not_running = 1199
code er_bad_slave = 1200
code er_master_inf = 1201
code er_slave_thread = 1202
code er_too_many_user_connections = 1203
code er_set_constants_only = 1204
code er_lock_wait_timeout = 1205
code er_lock_table_full = 1206
code er_read_only_transaction = 1207
code er_drop_db_with_read_lock = 1208
code er_create_db_with_read_lock = 1209
code er_wrong_arguments = 1210
code er_no_permission_to_create_user = 1211
code er_union_tables_in_different_dir = 1212
code er_lock_deadlock = 1213
code er_table_cant_handle_ft = 1214
code er_cannot_add_foreign = 1215
code er_no_referenced_row = 1216
code er_row_is_referenced = 1217
code er_connect_to_master = 1218
code er_query_on_master = 1219
code er_error_when_executing_command = 1220
code er_wrong_usage = 1221
code er_wrong_number_of_columns_in_select = 1222
code er_cant_update_with_readlock = 1223
code er_mixing_not_allowed = 1224
code er_dup_argument = 1225
code er_user_limit_reached = 1226
code er_specific_access_denied_error = 1227
code er_local_variable = 1228
code er_global_variable = 1229
code er_no_default = 1230
code er_wrong_value_for_var = 1231
code er_wrong_type_for_var = 1232
code er_var_cant_be_read = 1233
code er_cant_use_option_here = 1234
code er_not_supported_yet = 1235
code er_master_fatal_error_reading_binlog = 1236
code er_slave_ignored_table = 1237
code er_incorrect_global_local_var = 1238
code er_wrong_fk_def = 1239
code er_key_ref_do_not_match_table_ref = 1240
code er_operand_columns = 1241
code er_subquery_no_1_row = 1242
code er_unknown_stmt_handler = 1243
code er_corrupt_help_db = 1244
code er_cyclic_reference = 1245
code er_auto_convert = 1246
code er_illegal_reference = 1247
code er_derived_must_have_alias = 1248
code er_select_reduced = 1249
code er_tablename_not_allowed_here = 1250
code er_not_supported_auth_mode = 1251
code er_spatial_cant_have_null = 1252
code er_collation_charset_mismatch = 1253
code er_slave_was_running = 1254
code er_slave_was_not_running = 1255
code er_too_big_for_uncompress = 1256
code er_zlib_z_mem_error = 1257
code er_zlib_z_buf_error = 1258
code er_zlib_z_data_error = 1259
code er_cut_value_group_concat = 1260
code er_warn_too_few_records = 1261
code er_warn_too_many_records = 1262
code er_warn_null_to_notnull = 1263
code er_warn_data_out_of_range = 1264
code warn_data_truncated = 1265
code er_warn_using_other_handler = 1266
code er_cant_aggregate_2collations = 1267
code er_drop_user = 1268
code er_revoke_grants = 1269
code er_cant_aggregate_3collations = 1270
code er_cant_aggregate_ncollations = 1271
code er_variable_is_not_struct = 1272
code er_unknown_collation = 1273
code er_slave_ignored_ssl_params = 1274
code er_server_is_in_secure_auth_mode = 1275
code er_warn_field_resolved = 1276
code er_bad_slave_until_cond = 1277
code er_missing_skip_slave = 1278
code er_until_cond_ignored = 1279
code er_wrong_name_for_index = 1280
code er_wrong_name_for_catalog = 1281
code er_warn_qc_resize = 1282
code er_bad_ft_column = 1283
code er_unknown_key_cache = 1284
code er_warn_hostname_wont_work = 1285
code er_unknown_storage_engine = 1286
code er_warn_deprecated_syntax = 1287
code er_non_updatable_table = 1288
code er_feature_disabled = 1289
code er_option_prevents_statement = 1290
code er_duplicated_value_in_type = 1291
code er_truncated_wrong_value = 1292
code er_too_much_auto_timestamp_cols = 1293
code er_invalid_on_update = 1294
code er_unsupported_ps = 1295
code er_get_errmsg = 1296
code er_get_temporary_errmsg = 1297
code er_unknown_time_zone = 1298
code er_warn_invalid_timestamp = 1299
code er_invalid_character_string = 1300
code er_warn_allowed_packet_overflowed = 1301
code er_conflicting_declarations = 1302
code er_sp_no_recursive_create = 1303
code er_sp_already_exists = 1304
code er_sp_does_not_exist = 1305
code er_sp_drop_failed = 1306
code er_sp_store_failed = 1307
code er_sp_lilabel_mismatch = 1308
code er_sp_label_redefine = 1309
code er_sp_label_mismatch = 1310
code er_sp_uninit_var = 1311
code er_sp_badselect = 1312
code er_sp_badreturn = 1313
code er_sp_badstatement = 1314
code er_update_log_deprecated_ignored = 1315
code er_update_log_deprecated_translated = 1316
code er_query_interrupted = 1317
code er_sp_wrong_no_of_args = 1318
code er_sp_cond_mismatch = 1319
code er_sp_noreturn = 1320
code er_sp_noreturnend = 1321
code er_sp_bad_cursor_query = 1322
code er_sp_bad_cursor_select = 1323
code er_sp_cursor_mismatch = 1324
code er_sp_cursor_already_open = 1325
code er_sp_cursor_not_open = 1326
code er_sp_undeclared_var = 1327
code er_sp_wrong_no_of_fetch_args = 1328
code er_sp_fetch_no_data = 1329
code er_sp_dup_param = 1330
code er_sp_dup_var = 1331
code er_sp_dup_cond = 1332
code er_sp_dup_curs = 1333
code er_sp_cant_alter = 1334
code er_sp_subselect_nyi = 1335
code er_stmt_not_allowed_in_sf_or_trg = 1336
code er_sp_varcond_after_curshndlr = 1337
code er_sp_cursor_after_handler = 1338
code er_sp_case_not_found = 1339
code er_fparser_too_big_file = 1340
code er_fparser_bad_header = 1341
code er_fparser_eof_in_comment = 1342
code er_fparser_error_in_parameter = 1343
code er_fparser_eof_in_unknown_parameter = 1344
code er_view_no_explain = 1345
code er_frm_unknown_type = 1346
code er_wrong_object = 1347
code er_nonupdateable_column = 1348
code er_view_select_derived = 1349
code er_view_select_clause = 1350
code er_view_select_variable = 1351
code er_view_select_tmptable = 1352
code er_view_wrong_list = 1353
code er_warn_view_merge = 1354
code er_warn_view_without_key = 1355
code er_view_invalid = 1356
code er_sp_no_drop_sp = 1357
code er_sp_goto_in_hndlr = 1358
code er_trg_already_exists = 1359
code er_trg_does_not_exist = 1360
code er_trg_on_view_or_temp_table = 1361
code er_trg_cant_change_row = 1362
code er_trg_no_such_row_in_trg = 1363
code er_no_default_for_field = 1364
code er_division_by_zer = 1365
code er_truncated_wrong_value_for_field = 1366
code er_illegal_value_for_type = 1367
code er_view_nonupd_check = 1368
code er_view_check_failed = 1369
code er_procaccess_denied_error = 1370
code er_relay_log_fail = 1371
code er_passwd_length = 1372
code er_unknown_target_binlog = 1373
code er_io_err_log_index_read = 1374
code er_binlog_purge_prohibited = 1375
code er_fseek_fail = 1376
code er_binlog_purge_fatal_err = 1377
code er_log_in_use = 1378
code er_log_purge_unknown_err = 1379
code er_relay_log_init = 1380
code er_no_binary_logging = 1381
code er_reserved_syntax = 1382
code er_wsas_failed = 1383
code er_diff_groups_proc = 1384
code er_no_group_for_proc = 1385
code er_order_with_proc = 1386
code er_logging_prohibit_changing_of = 1387
code er_no_file_mapping = 1388
code er_wrong_magic = 1389
code er_ps_many_param = 1390
code er_key_part_0 = 1391
code er_view_checksum = 1392
code er_view_multiupdate = 1393
code er_view_no_insert_field_list = 1394
code er_view_delete_merge_view = 1395
code er_cannot_user = 1396
code er_xaer_nota = 1397
code er_xaer_inval = 1398
code er_xaer_rmfail = 1399
code er_xaer_outside = 1400
code er_xaer_rmerr = 1401
code er_xa_rbrollback = 1402
code er_nonexisting_proc_grant = 1403
code er_proc_auto_grant_fail = 1404
code er_proc_auto_revoke_fail = 1405
code er_data_too_long = 1406
code er_sp_bad_sqlstate = 1407
code er_startup = 1408
code er_load_from_fixed_size_rows_to_var = 1409
code er_cant_create_user_with_grant = 1410
code er_wrong_value_for_type = 1411
code er_table_def_changed = 1412
code er_sp_dup_handler = 1413
code er_sp_not_var_arg = 1414
code er_sp_no_retset = 1415
code er_cant_create_geometry_object = 1416
code er_failed_routine_break_binlog = 1417
code er_binlog_unsafe_routine = 1418
code er_binlog_create_routine_need_super = 1419
code er_exec_stmt_with_open_cursor = 1420
code er_stmt_has_no_open_cursor = 1421
code er_commit_not_allowed_in_sf_or_trg = 1422
code er_no_default_for_view_field = 1423
code er_sp_no_recursion = 1424
code er_too_big_scale = 1425
code er_too_big_precision = 1426
code er_m_bigger_than_d = 1427
code er_wrong_lock_of_system_table = 1428
code er_connect_to_foreign_data_source = 1429
code er_query_on_foreign_data_source = 1430
code er_foreign_data_source_doesnt_exist = 1431
code er_foreign_data_string_invalid_cant_create = 1432
code er_foreign_data_string_invalid = 1433
code er_cant_create_federated_table = 1434
code er_trg_in_wrong_schema = 1435
code er_stack_overrun_need_more = 1436
code er_too_long_body = 1437
code er_warn_cant_drop_default_keycache = 1438
code er_too_big_displaywidth = 1439
code er_xaer_dupid = 1440
code er_datetime_function_overflow = 1441
code er_cant_update_used_table_in_sf_or_trg = 1442
code er_view_prevent_update = 1443
code er_ps_no_recursion = 1444
code er_sp_cant_set_autocommit = 1445
code er_malformed_definer = 1446
code er_view_frm_no_user = 1447
code er_view_other_user = 1448
code er_no_such_user = 1449
code er_forbid_schema_change = 1450
code er_row_is_referenced_2 = 1451
code er_no_referenced_row_2 = 1452
code er_sp_bad_var_shadow = 1453
code er_trg_no_definer = 1454
code er_old_file_format = 1455
code er_sp_recursion_limit = 1456
code er_sp_proc_table_corrupt = 1457
code er_sp_wrong_name = 1458
code er_table_needs_upgrade = 1459
code er_sp_no_aggregate = 1460
code er_max_prepared_stmt_count_reached = 1461
code er_view_recursive = 1462
code er_non_grouping_field_used = 1463
code er_table_cant_handle_spkeys = 1464
code er_no_triggers_on_system_schema = 1465
code er_removed_spaces = 1466
code er_autoinc_read_failed = 1467
code er_username = 1468
code er_hostname = 1469
code er_wrong_string_length = 1470
code er_non_insertable_table = 1471
code er_admin_wrong_mrg_table = 1472
code er_too_high_level_of_nesting_for_select = 1473
code er_name_becomes_empty = 1474
code er_ambiguous_field_term = 1475
code er_foreign_server_exists = 1476
code er_foreign_server_doesnt_exist = 1477
code er_illegal_ha_create_option = 1478
code er_partition_requires_values_error = 1479
code er_partition_wrong_values_error = 1480
code er_partition_maxvalue_error = 1481
code er_partition_subpartition_error = 1482
code er_partition_subpart_mix_error = 1483
code er_partition_wrong_no_part_error = 1484
code er_partition_wrong_no_subpart_error = 1485
code er_wrong_expr_in_partition_func_error = 1486
code er_no_const_expr_in_range_or_list_error = 1487
code er_field_not_found_part_error = 1488
code er_list_of_fields_only_in_hash_error = 1489
code er_inconsistent_partition_info_error = 1490
code er_partition_func_not_allowed_error = 1491
code er_partitions_must_be_defined_error = 1492
code er_range_not_increasing_error = 1493
code er_inconsistent_type_of_functions_error = 1494
code er_multiple_def_const_in_list_part_error = 1495
code er_partition_entry_error = 1496
code er_mix_handler_error = 1497
code er_partition_not_defined_error = 1498
code er_too_many_partitions_error = 1499
code er_subpartition_error = 1500
code er_cant_create_handler_file = 1501
code er_blob_field_in_part_func_error = 1502
code er_unique_key_need_all_fields_in_pf = 1503
code er_no_parts_error = 1504
code er_partition_mgmt_on_nonpartitioned = 1505
code er_foreign_key_on_partitioned = 1506
code er_drop_partition_non_existent = 1507
code er_drop_last_partition = 1508
code er_coalesce_only_on_hash_partition = 1509
code er_reorg_hash_only_on_same_n = 1510
code er_reorg_no_param_error = 1511
code er_only_on_range_list_partition = 1512
code er_add_partition_subpart_error = 1513
code er_add_partition_no_new_partition = 1514
code er_coalesce_partition_no_partition = 1515
code er_reorg_partition_not_exist = 1516
code er_same_name_partition = 1517
code er_no_binlog_error = 1518
code er_consecutive_reorg_partitions = 1519
code er_reorg_outside_range = 1520
code er_partition_function_failure = 1521
code er_part_state_error = 1522
code er_limited_part_range = 1523
code er_plugin_is_not_loaded = 1524
code er_wrong_value = 1525
code er_no_partition_for_given_value = 1526
code er_filegroup_option_only_once = 1527
code er_create_filegroup_failed = 1528
code er_drop_filegroup_failed = 1529
code er_tablespace_auto_extend_error = 1530
code er_wrong_size_number = 1531
code er_size_overflow_error = 1532
code er_alter_filegroup_failed = 1533
code er_binlog_row_logging_failed = 1534
code er_binlog_row_wrong_table_def = 1535
code er_binlog_row_rbr_to_sbr = 1536
code er_event_already_exists = 1537
code er_event_store_failed = 1538
code er_event_does_not_exist = 1539
code er_event_cant_alter = 1540
code er_event_drop_failed = 1541
code er_event_interval_not_positive_or_too_big = 1542
code er_event_ends_before_starts = 1543
code er_event_exec_time_in_the_past = 1544
code er_event_open_table_failed = 1545
code er_event_neither_m_expr_nor_m_at = 1546
code er_col_count_doesnt_match_corrupted = 1547
code er_cannot_load_from_table = 1548
code er_event_cannot_delete = 1549
code er_event_compile_error = 1550
code er_event_same_name = 1551
code er_event_data_too_long = 1552
code er_drop_index_fk = 1553
code er_warn_deprecated_syntax_with_ver = 1554
code er_cant_write_lock_log_table = 1555
code er_cant_lock_log_table = 1556
code er_foreign_duplicate_key = 1557
code er_col_count_doesnt_match_please_update = 1558
code er_temp_table_prevents_switch_out_of_rbr = 1559
code er_stored_function_prevents_switch_binlog_format = 1560
code er_ndb_cant_switch_binlog_format = 1561
code er_partition_no_temporary = 1562
code er_partition_const_domain_error = 1563
code er_partition_function_is_not_allowed = 1564
code er_ddl_log_error = 1565
code er_null_in_values_less_than = 1566
code er_wrong_partition_name = 1567
code er_cant_change_tx_isolation = 1568
code er_dup_entry_autoincrement_case = 1569
code er_event_modify_queue_error = 1570
code er_event_set_var_error = 1571
code er_partition_merge_error = 1572
code er_cant_activate_log = 1573
code er_rbr_not_available = 1574
code er_base64_decode_error = 1575
code er_event_recursion_forbidden = 1576
code er_events_db_error = 1577
code er_only_integers_allowed = 1578
code er_unsuported_log_engine = 1579
code er_bad_log_statement = 1580
code er_cant_rename_log_table = 1581
code er_wrong_paramcount_to_native_fct = 1582
code er_wrong_parameters_to_native_fct = 1583
code er_wrong_parameters_to_stored_fct = 1584
code er_native_fct_name_collision = 1585
code er_dup_entry_with_key_name = 1586
code er_binlog_purge_emfile = 1587
code er_event_cannot_create_in_the_past = 1588
code er_event_cannot_alter_in_the_past = 1589
code er_slave_incident = 1590
code er_no_partition_for_given_value_silent = 1591
code er_binlog_unsafe_statement = 1592
code er_slave_fatal_error = 1593
code er_slave_relay_log_read_failure = 1594
code er_slave_relay_log_write_failure = 1595
code er_slave_create_event_failure = 1596
code er_slave_master_com_failure = 1597
code er_binlog_logging_impossible = 1598
code er_view_no_creation_ctx = 1599
code er_view_invalid_creation_ctx = 1600
code er_sr_invalid_creation_ctx = 1601
code er_trg_corrupted_file = 1602
code er_trg_no_creation_ctx = 1603
code er_trg_invalid_creation_ctx = 1604
code er_event_invalid_creation_ctx = 1605
code er_trg_cant_open_table = 1606
code er_cant_create_sroutine = 1607
code er_unused_11 = 1608
code er_no_format_description_event_before_binlog_statement = 1609
code er_slave_corrupt_event = 1610
code er_load_data_invalid_column = 1611
code er_log_purge_no_file = 1612
code er_xa_rbtimeout = 1613
code er_xa_rbdeadlock = 1614
code er_need_reprepare = 1615
code er_delayed_not_supported = 1616
code warn_no_master_inf = 1617
code warn_option_ignored = 1618
code warn_plugin_delete_builtin = 1619
code warn_plugin_busy = 1620
code er_variable_is_readonly = 1621
code er_warn_engine_transaction_rollback = 1622
code er_slave_heartbeat_failure = 1623
code er_slave_heartbeat_value_out_of_range = 1624
code er_ndb_replication_schema_error = 1625
code er_conflict_fn_parse_error = 1626
code er_exceptions_write_error = 1627
code er_too_long_table_comment = 1628
code er_too_long_field_comment = 1629
code er_func_inexistent_name_collision = 1630
code er_database_name = 1631
code er_table_name = 1632
code er_partition_name = 1633
code er_subpartition_name = 1634
code er_temporary_name = 1635
code er_renamed_name = 1636
code er_too_many_concurrent_trxs = 1637
code warn_non_ascii_separator_not_implemented = 1638
code er_debug_sync_timeout = 1639
code er_debug_sync_hit_limit = 1640
code er_dup_signal_set = 1641
code er_signal_warn = 1642
code er_signal_not_found = 1643
code er_signal_exception = 1644
code er_resignal_without_active_handler = 1645
code er_signal_bad_condition_type = 1646
code warn_cond_item_truncated = 1647
code er_cond_item_too_long = 1648
code er_unknown_locale = 1649
code er_slave_ignore_server_ids = 1650
code er_query_cache_disabled = 1651
code er_same_name_partition_field = 1652
code er_partition_column_list_error = 1653
code er_wrong_type_column_value_error = 1654
code er_too_many_partition_func_fields_error = 1655
code er_maxvalue_in_values_in = 1656
code er_too_many_values_error = 1657
code er_row_single_partition_field_error = 1658
code er_field_type_not_allowed_as_partition_field = 1659
code er_partition_fields_too_long = 1660
code er_binlog_row_engine_and_stmt_engine = 1661
code er_binlog_row_mode_and_stmt_engine = 1662
code er_binlog_unsafe_and_stmt_engine = 1663
code er_binlog_row_injection_and_stmt_engine = 1664
code er_binlog_stmt_mode_and_row_engine = 1665
code er_binlog_row_injection_and_stmt_mode = 1666
code er_binlog_multiple_engines_and_self_logging_engine = 1667
code er_binlog_unsafe_limit = 1668
code er_binlog_unsafe_insert_delayed = 1669
code er_binlog_unsafe_system_table = 1670
code er_binlog_unsafe_autoinc_columns = 1671
code er_binlog_unsafe_udf = 1672
code er_binlog_unsafe_system_variable = 1673
code er_binlog_unsafe_system_function = 1674
code er_binlog_unsafe_nontrans_after_trans = 1675
code er_message_and_statement = 1676
code er_slave_conversion_failed = 1677
code er_slave_cant_create_conversion = 1678
code er_inside_transaction_prevents_switch_binlog_format = 1679
code er_path_length = 1680
code er_warn_deprecated_syntax_no_replacement = 1681
code er_wrong_native_table_structure = 1682
code er_wrong_perfschema_usage = 1683
code er_warn_i_s_skipped_table = 1684
code er_inside_transaction_prevents_switch_binlog_direct = 1685
code er_stored_function_prevents_switch_binlog_direct = 1686
code er_spatial_must_have_geom_col = 1687
code er_too_long_index_comment = 1688
code er_lock_aborted = 1689
code er_data_out_of_range = 1690
code er_wrong_spvar_type_in_limit = 1691
code er_binlog_unsafe_multiple_engines_and_self_logging_engine = 1692
code er_binlog_unsafe_mixed_statement = 1693
code er_inside_transaction_prevents_switch_sql_log_bin = 1694
code er_stored_function_prevents_switch_sql_log_bin = 1695
code er_failed_read_from_par_file = 1696
code er_values_is_not_int_type_error = 1697
code er_access_denied_no_password_error = 1698
code er_set_password_auth_plugin = 1699
code er_grant_plugin_user_exists = 1700
code er_truncate_illegal_fk = 1701
code er_plugin_is_permanent = 1702
code er_slave_heartbeat_value_out_of_range_min = 1703
code er_slave_heartbeat_value_out_of_range_max = 1704
code er_stmt_cache_full = 1705
code er_multi_update_key_conflict = 1706
code er_table_needs_rebuild = 1707
code warn_option_below_limit = 1708
code er_index_column_too_long = 1709
code er_error_in_trigger_body = 1710
code er_error_in_unknown_trigger_body = 1711
code er_index_corrupt = 1712
code er_undo_record_too_big = 1713
code er_binlog_unsafe_insert_ignore_select = 1714
code er_binlog_unsafe_insert_select_update = 1715
code er_binlog_unsafe_replace_select = 1716
code er_binlog_unsafe_create_ignore_select = 1717
code er_binlog_unsafe_create_replace_select = 1718
code er_binlog_unsafe_update_ignore = 1719
code er_plugin_no_uninstall = 1720
code er_plugin_no_install = 1721
code er_binlog_unsafe_write_autoinc_select = 1722
code er_binlog_unsafe_create_select_autoinc = 1723
code er_binlog_unsafe_insert_two_keys = 1724
code er_table_in_fk_check = 1725
code er_unsupported_engine = 1726
code er_binlog_unsafe_autoinc_not_first = 1727
code er_cannot_load_from_table_v2 = 1728
code er_master_delay_value_out_of_range = 1729
code er_only_fd_and_rbr_events_allowed_in_binlog_statement = 1730
code er_partition_exchange_different_option = 1731
code er_partition_exchange_part_table = 1732
code er_partition_exchange_temp_table = 1733
code er_partition_instead_of_subpartition = 1734
code er_unknown_partition = 1735
code er_tables_different_metadata = 1736
code er_row_does_not_match_partition = 1737
code er_binlog_cache_size_greater_than_max = 1738
code er_warn_index_not_applicable = 1739
code er_partition_exchange_foreign_key = 1740
code er_no_such_key_value = 1741
code er_rpl_info_data_too_long = 1742
code er_network_read_event_checksum_failure = 1743
code er_binlog_read_event_checksum_failure = 1744
code er_binlog_stmt_cache_size_greater_than_max = 1745
code er_cant_update_table_in_create_table_select = 1746
code er_partition_clause_on_nonpartitioned = 1747
code er_row_does_not_match_given_partition_set = 1748
code er_no_such_partition_unused = 1749
code er_change_rpl_info_repository_failure = 1750
code er_warning_not_complete_rollback_with_created_temp_table = 1751
code er_warning_not_complete_rollback_with_dropped_temp_table = 1752
code er_mts_feature_is_not_supported = 1753
code er_mts_updated_dbs_greater_max = 1754
code er_mts_cant_parallel = 1755
code er_mts_inconsistent_data = 1756
code er_fulltext_not_supported_with_partitioning = 1757
code er_da_invalid_condition_number = 1758
code er_insecure_plain_text = 1759
code er_insecure_change_master = 1760
code er_foreign_duplicate_key_with_child_info = 1761
code er_foreign_duplicate_key_without_child_info = 1762
code er_sqlthread_with_secure_slave = 1763
code er_table_has_no_ft = 1764
code er_variable_not_settable_in_sf_or_trigger = 1765
code er_variable_not_settable_in_transaction = 1766
code er_gtid_next_is_not_in_gtid_next_list = 1767
code er_cant_change_gtid_next_in_transaction_when_gtid_next_list_is_null = 1768
code er_set_statement_cannot_invoke_function = 1769
code er_gtid_next_cant_be_automatic_if_gtid_next_list_is_non_null = 1770
code er_skipping_logged_transaction = 1771
code er_malformed_gtid_set_specification = 1772
code er_malformed_gtid_set_encoding = 1773
code er_malformed_gtid_specification = 1774
code er_gno_exhausted = 1775
code er_bad_slave_auto_position = 1776
code er_auto_position_requires_gtid_mode_on = 1777
code er_cant_do_implicit_commit_in_trx_when_gtid_next_is_set = 1778
code er_gtid_mode_2_or_3_requires_disable_gtid_unsafe_statements_on = 1779
code er_gtid_mode_requires_binlog = 1780
code er_cant_set_gtid_next_to_gtid_when_gtid_mode_is_off = 1781
code er_cant_set_gtid_next_to_anonymous_when_gtid_mode_is_on = 1782
code er_cant_set_gtid_next_list_to_non_null_when_gtid_mode_is_off = 1783
code er_found_gtid_event_when_gtid_mode_is_off = 1784
code er_gtid_unsafe_non_transactional_table = 1785
code er_gtid_unsafe_create_select = 1786
code er_gtid_unsafe_create_drop_temporary_table_in_transaction = 1787
code er_gtid_mode_can_only_change_one_step_at_a_time = 1788
code er_master_has_purged_required_gtids = 1789
code er_cant_set_gtid_next_when_owning_gtid = 1790
code er_unknown_explain_format = 1791
code er_cant_execute_in_read_only_transaction = 1792
code er_too_long_table_partition_comment = 1793
code er_slave_configuration = 1794
code er_innodb_ft_limit = 1795
code er_innodb_no_ft_temp_table = 1796
code er_innodb_ft_wrong_docid_column = 1797
code er_innodb_ft_wrong_docid_index = 1798
code er_innodb_online_log_too_big = 1799
code er_unknown_alter_algorithm = 1800
code er_unknown_alter_lock = 1801
code er_mts_change_master_cant_run_with_gaps = 1802
code er_mts_recovery_failure = 1803
code er_mts_reset_workers = 1804
code er_col_count_doesnt_match_corrupted_v2 = 1805
code er_slave_silent_retry_transaction = 1806
code er_discard_fk_checks_running = 1807
code er_table_schema_mismatch = 1808
code er_table_in_system_tablespace = 1809
code er_io_read_error = 1810
code er_io_write_error = 1811
code er_tablespace_missing = 1812
code er_tablespace_exists = 1813
code er_tablespace_discarded = 1814
code er_internal_error = 1815
code er_innodb_import_error = 1816
code er_innodb_index_corrupt = 1817
code er_invalid_year_column_length = 1818
code er_not_valid_password = 1819
code er_must_change_password = 1820
code er_fk_no_index_child = 1821
code er_fk_no_index_parent = 1822
code er_fk_fail_add_system = 1823
code er_fk_cannot_open_parent = 1824
code er_fk_incorrect_option = 1825
code er_fk_dup_name = 1826
code er_password_format = 1827
code er_fk_column_cannot_drop = 1828
code er_fk_column_cannot_drop_child = 1829
code er_fk_column_not_null = 1830
code er_dup_index = 1831
code er_fk_column_cannot_change = 1832
code er_fk_column_cannot_change_child = 1833
code er_fk_cannot_delete_parent = 1834
code er_malformed_packet = 1835
code er_read_only_mode = 1836
code er_gtid_next_type_undefined_group = 1837
code er_variable_not_settable_in_sp = 1838
code er_cant_set_gtid_purged_when_gtid_mode_is_off = 1839
code er_cant_set_gtid_purged_when_gtid_executed_is_not_empty = 1840
code er_cant_set_gtid_purged_when_owned_gtids_is_not_empty = 1841
code er_gtid_purged_was_changed = 1842
code er_gtid_executed_was_changed = 1843
code er_binlog_stmt_mode_and_no_repl_tables = 1844
code er_alter_operation_not_supported = 1845
code er_alter_operation_not_supported_reason = 1846
code er_alter_operation_not_supported_reason_copy = 1847
code er_alter_operation_not_supported_reason_partition = 1848
code er_alter_operation_not_supported_reason_fk_rename = 1849
code er_alter_operation_not_supported_reason_column_type = 1850
code er_alter_operation_not_supported_reason_fk_check = 1851
code er_alter_operation_not_supported_reason_ignore = 1852
code er_alter_operation_not_supported_reason_nopk = 1853
code er_alter_operation_not_supported_reason_autoinc = 1854
code er_alter_operation_not_supported_reason_hidden_fts = 1855
code er_alter_operation_not_supported_reason_change_fts = 1856
code er_alter_operation_not_supported_reason_fts = 1857
code er_sql_slave_skip_counter_not_settable_in_gtid_mode = 1858
code er_dup_unknown_in_index = 1859
code er_ident_causes_too_long_path = 1860
code er_alter_operation_not_supported_reason_not_null = 1861
code er_must_change_password_login = 1862
code er_row_in_wrong_partition = 1863
code er_mts_event_bigger_pending_jobs_size_max = 1864
code er_innodb_no_ft_uses_parser = 1865
code er_binlog_logical_corruption = 1866
code er_warn_purge_log_in_use = 1867
code er_warn_purge_log_is_active = 1868
code er_auto_increment_conflict = 1869
code warn_on_blockhole_in_rbr = 1870
code er_slave_mi_init_repository = 1871
code er_slave_rli_init_repository = 1872
code er_access_denied_change_user_error = 1873
code er_innodb_read_only = 1874
code er_stop_slave_sql_thread_timeout = 1875
code er_stop_slave_io_thread_timeout = 1876
code er_table_corrupt = 1877
code er_temp_file_write_failure = 1878
code er_innodb_ft_aux_not_hex_id = 1879
code er_old_temporals_upgraded = 1880
code er_innodb_forced_recovery = 1881
code er_aes_invalid_iv = 1882
code er_plugin_cannot_be_uninstalled = 1883
code er_gtid_unsafe_binlog_splittable_statement_and_gtid_group = 1884
code er_slave_has_more_gtids_than_master = 1885

-- The arms of the match of `From<u16>`, in their order.
unfoldable pub arms : List (ℕ × ErrorKind)
arms =
    (1000, er_hashchk)
    ∷ (1001, er_nisamchk)
    ∷ (1002, er_no)
    ∷ (1003, er_yes)
    ∷ (1004, er_cant_create_file)
    ∷ (1005, er_cant_create_table)
    ∷ (1006, er_cant_create_db)
    ∷ (1007, er_db_create_exists)
    ∷ (1008, er_db_drop_exists)
    ∷ (1009, er_db_drop_delete)
    ∷ (1010, er_db_drop_rmdir)
    ∷ (1011, er_cant_delete_file)
    ∷ (1012, er_cant_find_system_rec)
    ∷ (1013, er_cant_get_stat)
    ∷ (1014, er_cant_get_wd)
    ∷ (1015, er_cant_lock)
    ∷ (1016, er_cant_open_file)
    ∷ (1017, er_file_not_found)
    ∷ (1018, er_cant_read_dir)
    ∷ (1019, er_cant_set_wd)
    ∷ (1020, er_checkread)
    ∷ (1021, er_disk_full)
    ∷ (1022, er_dup_key)
    ∷ (1023, er_error_on_close)
    ∷ (1024, er_error_on_read)
    ∷ (1025, er_error_on_rename)
    ∷ (1026, er_error_on_write)
    ∷ (1027, er_file_used)
    ∷ (1028, er_filsort_abort)
    ∷ (1029, er_form_not_found)
    ∷ (1030, er_get_errn)
    ∷ (1031, er_illegal_ha)
    ∷ (1032, er_key_not_found)
    ∷ (1033, er_not_form_file)
    ∷ (1034, er_not_keyfile)
    ∷ (1035, er_old_keyfile)
    ∷ (1036, er_open_as_readonly)
    ∷ (1037, er_outofmemory)
    ∷ (1038, er_out_of_sortmemory)
    ∷ (1039, er_unexpected_eof)
    ∷ (1040, er_con_count_error)
    ∷ (1041, er_out_of_resources)
    ∷ (1042, er_bad_host_error)
    ∷ (1043, er_handshake_error)
    ∷ (1044, er_dbaccess_denied_error)
    ∷ (1045, er_access_denied_error)
    ∷ (1046, er_no_db_error)
    ∷ (1047, er_unknown_com_error)
    ∷ (1048, er_bad_null_error)
    ∷ (1049, er_bad_db_error)
    ∷ (1050, er_table_exists_error)
    ∷ (1051, er_bad_table_error)
    ∷ (1052, er_non_uniq_error)
    ∷ (1053, er_server_shutdown)
    ∷ (1054, er_bad_field_error)
    ∷ (1055, er_wrong_field_with_group)
    ∷ (1056, er_wrong_group_field)
    ∷ (1057, er_wrong_sum_select)
    ∷ (1058, er_wrong_value_count)
    ∷ (1059, er_too_long_ident)
    ∷ (1060, er_dup_fieldname)
    ∷ (1061, er_dup_keyname)
    ∷ (1062, er_dup_entry)
    ∷ (1063, er_wrong_field_spec)
    ∷ (1064, er_parse_error)
    ∷ (1065, er_empty_query)
    ∷ (1066, er_nonuniq_table)
    ∷ (1067, er_invalid_default)
    ∷ (1068, er_multiple_pri_key)
    ∷ (1069, er_too_many_keys)
    ∷ (1070, er_too_many_key_parts)
    ∷ (1071, er_too_long_key)
    ∷ (1072, er_key_column_does_not_exits)
    ∷ (1073, er_blob_used_as_key)
    ∷ (1074, er_too_big_fieldlength)
    ∷ (1075, er_wrong_auto_key)
    ∷ (1076, er_ready)
    ∷ (1077, er_normal_shutdown)
    ∷ (1078, er_got_signal)
    ∷ (1079, er_shutdown_complete)
    ∷ (1080, er_forcing_close)
    ∷ (1081, er_ipsock_error)
    ∷ (1082, er_no_such_index)
    ∷ (1083, er_wrong_field_terminators)
    ∷ (1084, er_blobs_and_no_terminated)
    ∷ (1085, er_textfile_not_readable)
    ∷ (1086, er_file_exists_error)
    ∷ (1087, er_load_inf)
    ∷ (1088, er_alter_inf)
    ∷ (1089, er_wrong_sub_key)
    ∷ (1090, er_cant_remove_all_fields)
    ∷ (1091, er_cant_drop_field_or_key)
    ∷ (1092, er_insert_inf)
    ∷ (1093, er_update_table_used)
    ∷ (1094, er_no_such_thread)
    ∷ (1095, er_kill_denied_error)
    ∷ (1096, er_no_tables_used)
    ∷ (1097, er_too_big_set)
    ∷ (1098, er_no_unique_logfile)
    ∷ (1099, er_table_not_locked_for_write)
    ∷ (1100, er_table_not_locked)
    ∷ (1101, er_blob_cant_have_default)
    ∷ (1102, er_wrong_db_name)
    ∷ (1103, er_wrong_table_name)
    ∷ (1104, er_too_big_select)
    ∷ (1105, er_unknown_error)
    ∷ (1106, er_unknown_procedure)
    ∷ (1107, er_wrong_paramcount_to_procedure)
    ∷ (1108, er_wrong_parameters_to_procedure)
    ∷ (1109, er_unknown_table)
    ∷ (1110, er_field_specified_twice)
    ∷ (1111, er_invalid_group_func_use)
    ∷ (1112, er_unsupported_extension)
    ∷ (1113, er_table_must_have_columns)
    ∷ (1114, er_record_file_full)
    ∷ (1115, er_unknown_character_set)
    ∷ (1116, er_too_many_tables)
    ∷ (1117, er_too_many_fields)
    ∷ (1118, er_too_big_rowsize)
    ∷ (1119, er_stack_overrun)
    ∷ (1120, er_wrong_outer_join)
    ∷ (1121, er_null_column_in_index)
    ∷ (1122, er_cant_find_udf)
    ∷ (1123, er_cant_initialize_udf)
    ∷ (1124, er_udf_no_paths)
    ∷ (1125, er_udf_exists)
    ∷ (1126, er_cant_open_library)
    ∷ (1127, er_cant_find_dl_entry)
    ∷ (1128, er_function_not_defined)
    ∷ (1129, er_host_is_blocked)
    ∷ (1130, er_host_not_privileged)
    ∷ (1131, er_password_anonymous_user)
    ∷ (1132, er_password_not_allowed)
    ∷ (1133, er_password_no_match)
    ∷ (1134, er_update_inf)
    ∷ (1135, er_cant_create_thread)
    ∷ (1136, er_wrong_value_count_on_row)
    ∷ (1137, er_cant_reopen_table)
    ∷ (1138, er_invalid_use_of_null)
    ∷ (1139, er_regexp_error)
    ∷ (1140, er_mix_of_group_func_and_fields)
    ∷ (1141, er_nonexisting_grant)
    ∷ (1142, er_tableaccess_denied_error)
    ∷ (1143, er_columnaccess_denied_error)
    ∷ (1144, er_illegal_grant_for_table)
    ∷ (1145, er_grant_wrong_host_or_user)
    ∷ (1146, er_no_such_table)
    ∷ (1147, er_nonexisting_table_grant)
    ∷ (1148, er_not_allowed_command)
    ∷ (1149, er_syntax_error)
    ∷ (1150, er_delayed_cant_change_lock)
    ∷ (1151, er_too_many_delayed_threads)
    ∷ (1152, er_aborting_connection)
    ∷ (1153, er_net_packet_too_large)
    ∷ (1154, er_net_read_error_from_pipe)
    ∷ (1155, er_net_fcntl_error)
    ∷ (1156, er_net_packets_out_of_order)
    ∷ (1157, er_net_uncompress_error)
    ∷ (1158, er_net_read_error)
    ∷ (1159, er_net_read_interrupted)
    ∷ (1160, er_net_error_on_write)
    ∷ (1161, er_net_write_interrupted)
    ∷ (1162, er_too_long_string)
    ∷ (1163, er_table_cant_handle_blob)
    ∷ (1164, er_table_cant_handle_auto_increment)
    ∷ (1165, er_delayed_insert_table_locked)
    ∷ (1166, er_wrong_column_name)
    ∷ (1167, er_wrong_key_column)
    ∷ (1168, er_wrong_mrg_table)
    ∷ (1169, er_dup_unique)
    ∷ (1170, er_blob_key_without_length)
    ∷ (1171, er_primary_cant_have_null)
    ∷ (1172, er_too_many_rows)
    ∷ (1173, er_requires_primary_key)
    ∷ (1174, er_no_raid_compiled)
    ∷ (1175, er_update_without_key_in_safe_mode)
    ∷ (1176, er_key_does_not_exits)
    ∷ (1177, er_check_no_such_table)
    ∷ (1178, er_check_not_implemented)
    ∷ (1179, er_cant_do_this_during_an_transaction)
    ∷ (1180, er_error_during_commit)
    ∷ (1181, er_error_during_rollback)
    ∷ (1182, er_error_during_flush_logs)
    ∷ (1183, er_error_during_checkpoint)
    ∷ (1184, er_new_aborting_connection)
    ∷ (1185, er_dump_not_implemented)
    ∷ (1186, er_flush_master_binlog_closed)
    ∷ (1187, er_index_rebuild)
    ∷ (1188, er_master)
    ∷ (1189, er_master_net_read)
    ∷ (1190, er_master_net_write)
    ∷ (1191, er_ft_matching_key_not_found)
    ∷ (1192, er_lock_or_active_transaction)
    ∷ (1193, er_unknown_system_variable)
    ∷ (1194, er_crashed_on_usage)
    ∷ (1195, er_crashed_on_repair)
    ∷ (1196, er_warning_not_complete_rollback)
    ∷ (1197, er_trans_cache_full)
    ∷ (1198, er_slave_must_stop)
    ∷ (1199, er_slave_not_running)
    ∷ (1200, er_bad_slave)
    ∷ (1201, er_master_inf)
    ∷ (1202, er_slave_thread)
    ∷ (1203, er_too_many_user_connections)
    ∷ (1204, er_set_constants_only)
    ∷ (1205, er_lock_wait_timeout)
    ∷ (1206, er_lock_table_full)
    ∷ (1207, er_read_only_transaction)
    ∷ (1208, er_drop_db_with_read_lock)
    ∷ (1209, er_create_db_with_read_lock)
    ∷ (1210, er_wrong_arguments)
    ∷ (1211, er_no_permission_to_create_user)
    ∷ (1212, er_union_tables_in_different_dir)
    ∷ (1213, er_lock_deadlock)
    ∷ (1214, er_table_cant_handle_ft)
    ∷ (1215, er_cannot_add_foreign)
    ∷ (1216, er_no_referenced_row)
    ∷ (1217, er_row_is_referenced)
    ∷ (1218, er_connect_to_master)
    ∷ (1219, er_query_on_master)
    ∷ (1220, er_error_when_executing_command)
    ∷ (1221, er_wrong_usage)
    ∷ (1222, er_wrong_number_of_columns_in_select)
    ∷ (1223, er_cant_update_with_readlock)
    ∷ (1224, er_mixing_not_allowed)
    ∷ (1225, er_dup_argument)
    ∷ (1226, er_user_limit_reached)
    ∷ (1227, er_specific_access_denied_error)
    ∷ (1228, er_local_variable)
    ∷ (1229, er_global_variable)
    ∷ (1230, er_no_default)
    ∷ (1231, er_wrong_value_for_var)
    ∷ (1232, er_wrong_type_for_var)
    ∷ (1233, er_var_cant_be_read)
    ∷ (1234, er_cant_use_option_here)
    ∷ (1235, er_not_supported_yet)
    ∷ (1236, er_master_fatal_error_reading_binlog)
    ∷ (1237, er_slave_ignored_table)
    ∷ (1238, er_incorrect_global_local_var)
    ∷ (1239, er_wrong_fk_def)
    ∷ (1240, er_key_ref_do_not_match_table_ref)
    ∷ (1241, er_operand_columns)
    ∷ (1242, er_subquery_no_1_row)
    ∷ (1243, er_unknown_stmt_handler)
    ∷ (1244, er_corrupt_help_db)
    ∷ (1245, er_cyclic_reference)
    ∷ (1246, er_auto_convert)
    ∷ (1247, er_illegal_reference)
    ∷ (1248, er_derived_must_have_alias)
    ∷ (1249, er_select_reduced)
    ∷ (1250, er_tablename_not_allowed_here)
    ∷ (1251, er_not_supported_auth_mode)
    ∷ (1252, er_spatial_cant_have_null)
    ∷ (1253, er_collation_charset_mismatch)
    ∷ (1254, er_slave_was_running)
    ∷ (1255, er_slave_was_not_running)
    ∷ (1256, er_too_big_for_uncompress)
    ∷ (1257, er_zlib_z_mem_error)
    ∷ (1258, er_zlib_z_buf_error)
    ∷ (1259, er_zlib_z_data_error)
    ∷ (1260, er_cut_value_group_concat)
    ∷ (1261, er_warn_too_few_records)
    ∷ (1262, er_warn_too_many_records)
    ∷ (1263, er_warn_null_to_notnull)
    ∷ (1264, er_warn_data_out_of_range)
    ∷ (1265, warn_data_truncated)
    ∷ (1266, er_warn_using_other_handler)
    ∷ (1267, er_cant_aggregate_2collations)
    ∷ (1268, er_drop_user)
    ∷ (1269, er_revoke_grants)
    ∷ (1270, er_cant_aggregate_3collations)
    ∷ (1271, er_cant_aggregate_ncollations)
    ∷ (1272, er_variable_is_not_struct)
    ∷ (1273, er_unknown_collation)
    ∷ (1274, er_slave_ignored_ssl_params)
    ∷ (1275, er_server_is_in_secure_auth_mode)
    ∷ (1276, er_warn_field_resolved)
    ∷ (1277, er_bad_slave_until_cond)
    ∷ (1278, er_missing_skip_slave)
    ∷ (1279, er_until_cond_ignored)
    ∷ (1280, er_wrong_name_for_index)
    ∷ (1281, er_wrong_name_for_catalog)
    ∷ (1282, er_warn_qc_resize)
    ∷ (1283, er_bad_ft_column)
    ∷ (1284, er_unknown_key_cache)
    ∷ (1285, er_warn_hostname_wont_work)
    ∷ (1286, er_unknown_storage_engine)
    ∷ (1287, er_warn_deprecated_syntax)
    ∷ (1288, er_non_updatable_table)
    ∷ (1289, er_feature_disabled)
    ∷ (1290, er_option_prevents_statement)
    ∷ (1291, er_duplicated_value_in_type)
    ∷ (1292, er_truncated_wrong_value)
    ∷ (1293, er_too_much_auto_timestamp_cols)
    ∷ (1294, er_invalid_on_update)
    ∷ (1295, er_unsupported_ps)
    ∷ (1296, er_get_errmsg)
    ∷ (1297, er_get_temporary_errmsg)
    ∷ (1298, er_unknown_time_zone)
    ∷ (1299, er_warn_invalid_timestamp)
    ∷ (1300, er_invalid_character_string)
    ∷ (1301, er_warn_allowed_packet_overflowed)
    ∷ (1302, er_conflicting_declarations)
    ∷ (1303, er_sp_no_recursive_create)
    ∷ (1304, er_sp_already_exists)
    ∷ (1305, er_sp_does_not_exist)
    ∷ (1306, er_sp_drop_failed)
    ∷ (1307, er_sp_store_failed)
    ∷ (1308, er_sp_lilabel_mismatch)
    ∷ (1309, er_sp_label_redefine)
    ∷ (1310, er_sp_label_mismatch)
    ∷ (1311, er_sp_uninit_var)
    ∷ (1312, er_sp_badselect)
    ∷ (1313, er_sp_badreturn)
    ∷ (1314, er_sp_badstatement)
    ∷ (1315, er_update_log_deprecated_ignored)
    ∷ (1316, er_update_log_deprecated_translated)
    ∷ (1317, er_query_interrupted)
    ∷ (1318, er_sp_wrong_no_of_args)
    ∷ (1319, er_sp_cond_mismatch)
    ∷ (1320, er_sp_noreturn)
    ∷ (1321, er_sp_noreturnend)
    ∷ (1322, er_sp_bad_cursor_query)
    ∷ (1323, er_sp_bad_cursor_select)
    ∷ (1324, er_sp_cursor_mismatch)
    ∷ (1325, er_sp_cursor_already_open)
    ∷ (1326, er_sp_cursor_not_open)
    ∷ (1327, er_sp_undeclared_var)
    ∷ (1328, er_sp_wrong_no_of_fetch_args)
    ∷ (1329, er_sp_fetch_no_data)
    ∷ (1330, er_sp_dup_param)
    ∷ (1331, er_sp_dup_var)
    ∷ (1332, er_sp_dup_cond)
    ∷ (1333, er_sp_dup_curs)
    ∷ (1334, er_sp_cant_alter)
    ∷ (1335, er_sp_subselect_nyi)
    ∷ (1336, er_stmt_not_allowed_in_sf_or_trg)
    ∷ (1337, er_sp_varcond_after_curshndlr)
    ∷ (1338, er_sp_cursor_after_handler)
    ∷ (1339, er_sp_case_not_found)
    ∷ (1340, er_fparser_too_big_file)
    ∷ (1341, er_fparser_bad_header)
    ∷ (1342, er_fparser_eof_in_comment)
    ∷ (1343, er_fparser_error_in_parameter)
    ∷ (1344, er_fparser_eof_in_unknown_parameter)
    ∷ (1345, er_view_no_explain)
    ∷ (1346, er_frm_unknown_type)
    ∷ (1347, er_wrong_object)
    ∷ (1348, er_nonupdateable_column)
    ∷ (1349, er_view_select_derived)
    ∷ (1350, er_view_select_clause)
    ∷ (1351, er_view_select_variable)
    ∷ (1352, er_view_select_tmptable)
    ∷ (1353, er_view_wrong_list)
    ∷ (1354, er_warn_view_merge)
    ∷ (1355, er_warn_view_without_key)
    ∷ (1356, er_view_invalid)
    ∷ (1357, er_sp_no_drop_sp)
    ∷ (1358, er_sp_goto_in_hndlr)
    ∷ (1359, er_trg_already_exists)
    ∷ (1360, er_trg_does_not_exist)
    ∷ (1361, er_trg_on_view_or_temp_table)
    ∷ (1362, er_trg_cant_change_row)
    ∷ (1363, er_trg_no_such_row_in_trg)
    ∷ (1364, er_no_default_for_field)
    ∷ (1365, er_division_by_zer)
    ∷ (1366, er_truncated_wrong_value_for_field)
    ∷ (1367, er_illegal_value_for_type)
    ∷ (1368, er_view_nonupd_check)
    ∷ (1369, er_view_check_failed)
    ∷ (1370, er_procaccess_denied_error)
    ∷ (1371, er_relay_log_fail)
    ∷ (1372, er_passwd_length)
    ∷ (1373, er_unknown_target_binlog)
    ∷ (1374, er_io_err_log_index_read)
    ∷ (1375, er_binlog_purge_prohibited)
    ∷ (1376, er_fseek_fail)
    ∷ (1377, er_binlog_purge_fatal_err)
    ∷ (1378, er_log_in_use)
    ∷ (1379, er_log_purge_unknown_err)
    ∷ (1380, er_relay_log_init)
    ∷ (1381, er_no_binary_logging)
    ∷ (1382, er_reserved_syntax)
    ∷ (1383, er_wsas_failed)
    ∷ (1384, er_diff_groups_proc)
    ∷ (1385, er_no_group_for_proc)
    ∷ (1386, er_order_with_proc)
    ∷ (1387, er_logging_prohibit_changing_of)
    ∷ (1388, er_no_file_mapping)
    ∷ (1389, er_wrong_magic)
    ∷ (1390, er_ps_many_param)
    ∷ (1391, er_key_part_0)
    ∷ (1392, er_view_checksum)
    ∷ (1393, er_view_multiupdate)
    ∷ (1394, er_view_no_insert_field_list)
    ∷ (1395, er_view_delete_merge_view)
    ∷ (1396, er_cannot_user)
    ∷ (1397, er_xaer_nota)
    ∷ (1398, er_xaer_inval)
    ∷ (1399, er_xaer_rmfail)
    ∷ (1400, er_xaer_outside)
    ∷ (1401, er_xaer_rmerr)
    ∷ (1402, er_xa_rbrollback)
    ∷ (1403, er_nonexisting_proc_grant)
    ∷ (1404, er_proc_auto_grant_fail)
    ∷ (1405, er_proc_auto_revoke_fail)
    ∷ (1406, er_data_too_long)
    ∷ (1407, er_sp_bad_sqlstate)
    ∷ (1408, er_startup)
    ∷ (1409, er_load_from_fixed_size_rows_to_var)
    ∷ (1410, er_cant_create_user_with_grant)
    ∷ (1411, er_wrong_value_for_type)
    ∷ (1412, er_table_def_changed)
    ∷ (1413, er_sp_dup_handler)
    ∷ (1414, er_sp_not_var_arg)
    ∷ (1415, er_sp_no_retset)
    ∷ (1416, er_cant_create_geometry_object)
    ∷ (1417, er_failed_routine_break_binlog)
    ∷ (1418, er_binlog_unsafe_routine)
    ∷ (1419, er_binlog_create_routine_need_super)
    ∷ (1420, er_exec_stmt_with_open_cursor)
    ∷ (1421, er_stmt_has_no_open_cursor)
    ∷ (1422, er_commit_not_allowed_in_sf_or_trg)
    ∷ (1423, er_no_default_for_view_field)
    ∷ (1424, er_sp_no_recursion)
    ∷ (1425, er_too_big_scale)
    ∷ (1426, er_too_big_precision)
    ∷ (1427, er_m_bigger_than_d)
    ∷ (1428, er_wrong_lock_of_system_table)
    ∷ (1429, er_connect_to_foreign_data_source)
    ∷ (1430, er_query_on_foreign_data_source)
    ∷ (1431, er_foreign_data_source_doesnt_exist)
    ∷ (1432, er_foreign_data_string_invalid_cant_create)
    ∷ (1433, er_foreign_data_string_invalid)
    ∷ (1434, er_cant_create_federated_table)
    ∷ (1435, er_trg_in_wrong_schema)
    ∷ (1436, er_stack_overrun_need_more)
    ∷ (1437, er_too_long_body)
    ∷ (1438, er_warn_cant_drop_default_keycache)
    ∷ (1439, er_too_big_displaywidth)
    ∷ (1440, er_xaer_dupid)
    ∷ (1441, er_datetime_function_overflow)
    ∷ (1442, er_cant_update_used_table_in_sf_or_trg)
    ∷ (1443, er_view_prevent_update)
    ∷ (1444, er_ps_no_recursion)
    ∷ (1445, er_sp_cant_set_autocommit)
    ∷ (1446, er_malformed_definer)
    ∷ (1447, er_view_frm_no_user)
    ∷ (1448, er_view_other_user)
    ∷ (1449, er_no_such_user)
    ∷ (1450, er_forbid_schema_change)
    ∷ (1451, er_row_is_referenced_2)
    ∷ (1452, er_no_referenced_row_2)
    ∷ (1453, er_sp_bad_var_shadow)
    ∷ (1454, er_trg_no_definer)
    ∷ (1455, er_old_file_format)
    ∷ (1456, er_sp_recursion_limit)
    ∷ (1457, er_sp_proc_table_corrupt)
    ∷ (1458, er_sp_wrong_name)
    ∷ (1459, er_table_needs_upgrade)
    ∷ (1460, er_sp_no_aggregate)
    ∷ (1461, er_max_prepared_stmt_count_reached)
    ∷ (1462, er_view_recursive)
    ∷ (1463, er_non_grouping_field_used)
    ∷ (1464, er_table_cant_handle_spkeys)
    ∷ (1465, er_no_triggers_on_system_schema)
    ∷ (1466, er_removed_spaces)
    ∷ (1467, er_autoinc_read_failed)
    ∷ (1468, er_username)
    ∷ (1469, er_hostname)
    ∷ (1470, er_wrong_string_length)
    ∷ (1471, er_non_insertable_table)
    ∷ (1472, er_admin_wrong_mrg_table)
    ∷ (1473, er_too_high_level_of_nesting_for_select)
    ∷ (1474, er_name_becomes_empty)
    ∷ (1475, er_ambiguous_field_term)
    ∷ (1476, er_foreign_server_exists)
    ∷ (1477, er_foreign_server_doesnt_exist)
    ∷ (1478, er_illegal_ha_create_option)
    ∷ (1479, er_partition_requires_values_error)
    ∷ (1480, er_partition_wrong_values_error)
    ∷ (1481, er_partition_maxvalue_error)
    ∷ (1482, er_partition_subpartition_error)
    ∷ (1483, er_partition_subpart_mix_error)
    ∷ (1484, er_partition_wrong_no_part_error)
    ∷ (1485, er_partition_wrong_no_subpart_error)
    ∷ (1486, er_wrong_expr_in_partition_func_error)
    ∷ (1487, er_no_const_expr_in_range_or_list_error)
    ∷ (1488, er_field_not_found_part_error)
    ∷ (1489, er_list_of_fields_only_in_hash_error)
    ∷ (1490, er_inconsistent_partition_info_error)
    ∷ (1491, er_partition_func_not_allowed_error)
    ∷ (1492, er_partitions_must_be_defined_error)
    ∷ (1493, er_range_not_increasing_error)
    ∷ (1494, er_inconsistent_type_of_functions_error)
    ∷ (1495, er_multiple_def_const_in_list_part_error)
    ∷ (1496, er_partition_entry_error)
    ∷ (1497, er_mix_handler_error)
    ∷ (1498, er_partition_not_defined_error)
    ∷ (1499, er_too_many_partitions_error)
    ∷ (1500, er_subpartition_error)
    ∷ (1501, er_cant_create_handler_file)
    ∷ (1502, er_blob_field_in_part_func_error)
    ∷ (1503, er_unique_key_need_all_fields_in_pf)
    ∷ (1504, er_no_parts_error)
    ∷ (1505, er_partition_mgmt_on_nonpartitioned)
    ∷ (1506, er_foreign_key_on_partitioned)
    ∷ (1507, er_drop_partition_non_existent)
    ∷ (1508, er_drop_last_partition)
    ∷ (1509, er_coalesce_only_on_hash_partition)
    ∷ (1510, er_reorg_hash_only_on_same_n)
    ∷ (1511, er_reorg_no_param_error)
    ∷ (1512, er_only_on_range_list_partition)
    ∷ (1513, er_add_partition_subpart_error)
    ∷ (1514, er_add_partition_no_new_partition)
    ∷ (1515, er_coalesce_partition_no_partition)
    ∷ (1516, er_reorg_partition_not_exist)
    ∷ (1517, er_same_name_partition)
    ∷ (1518, er_no_binlog_error)
    ∷ (1519, er_consecutive_reorg_partitions)
    ∷ (1520, er_reorg_outside_range)
    ∷ (1521, er_partition_function_failure)
    ∷ (1522, er_part_state_error)
    ∷ (1523, er_limited_part_range)
    ∷ (1524, er_plugin_is_not_loaded)
    ∷ (1525, er_wrong_value)
    ∷ (1526, er_no_partition_for_given_value)
    ∷ (1527, er_filegroup_option_only_once)
    ∷ (1528, er_create_filegroup_failed)
    ∷ (1529, er_drop_filegroup_failed)
    ∷ (1530, er_tablespace_auto_extend_error)
    ∷ (1531, er_wrong_size_number)
    ∷ (1532, er_size_overflow_error)
    ∷ (1533, er_alter_filegroup_failed)
    ∷ (1534, er_binlog_row_logging_failed)
    ∷ (1535, er_binlog_row_wrong_table_def)
    ∷ (1536, er_binlog_row_rbr_to_sbr)
    ∷ (1537, er_event_already_exists)
    ∷ (1538, er_event_store_failed)
    ∷ (1539, er_event_does_not_exist)
    ∷ (1540, er_event_cant_alter)
    ∷ (1541, er_event_drop_failed)
    ∷ (1542, er_event_interval_not_positive_or_too_big)
    ∷ (1543, er_event_ends_before_starts)
    ∷ (1544, er_event_exec_time_in_the_past)
    ∷ (1545, er_event_open_table_failed)
    ∷ (1546, er_event_neither_m_expr_nor_m_at)
    ∷ (1547, er_col_count_doesnt_match_corrupted)
    ∷ (1548, er_cannot_load_from_table)
    ∷ (1549, er_event_cannot_delete)
    ∷ (1550, er_event_compile_error)
    ∷ (1551, er_event_same_name)
    ∷ (1552, er_event_data_too_long)
    ∷ (1553, er_drop_index_fk)
    ∷ (1554, er_warn_deprecated_syntax_with_ver)
    ∷ (1555, er_cant_write_lock_log_table)
    ∷ (1556, er_cant_lock_log_table)
    ∷ (1557, er_foreign_duplicate_key)
    ∷ (1558, er_col_count_doesnt_match_please_update)
    ∷ (1559, er_temp_table_prevents_switch_out_of_rbr)
    ∷ (1560, er_stored_function_prevents_switch_binlog_format)
    ∷ (1561, er_ndb_cant_switch_binlog_format)
    ∷ (1562, er_partition_no_temporary)
    ∷ (1563, er_partition_const_domain_error)
    ∷ (1564, er_partition_function_is_not_allowed)
    ∷ (1565, er_ddl_log_error)
    ∷ (1566, er_null_in_values_less_than)
    ∷ (1567, er_wrong_partition_name)
    ∷ (1568, er_cant_change_tx_isolation)
    ∷ (1569, er_dup_entry_autoincrement_case)
    ∷ (1570, er_event_modify_queue_error)
    ∷ (1571, er_event_set_var_error)
    ∷ (1572, er_partition_merge_error)
    ∷ (1573, er_cant_activate_log)
    ∷ (1574, er_rbr_not_available)
    ∷ (1575, er_base64_decode_error)
    ∷ (1576, er_event_recursion_forbidden)
    ∷ (1577, er_events_db_error)
    ∷ (1578, er_only_integers_allowed)
    ∷ (1579, er_unsuported_log_engine)
    ∷ (1580, er_bad_log_statement)
    ∷ (1581, er_cant_rename_log_table)
    ∷ (1582, er_wrong_paramcount_to_native_fct)
    ∷ (1583, er_wrong_parameters_to_native_fct)
    ∷ (1584, er_wrong_parameters_to_stored_fct)
    ∷ (1585, er_native_fct_name_collision)
    ∷ (1586, er_dup_entry_with_key_name)
    ∷ (1587, er_binlog_purge_emfile)
    ∷ (1588, er_event_cannot_create_in_the_past)
    ∷ (1589, er_event_cannot_alter_in_the_past)
    ∷ (1590, er_slave_incident)
    ∷ (1591, er_no_partition_for_given_value_silent)
    ∷ (1592, er_binlog_unsafe_statement)
    ∷ (1593, er_slave_fatal_error)
    ∷ (1594, er_slave_relay_log_read_failure)
    ∷ (1595, er_slave_relay_log_write_failure)
    ∷ (1596, er_slave_create_event_failure)
    ∷ (1597, er_slave_master_com_failure)
    ∷ (1598, er_binlog_logging_impossible)
    ∷ (1599, er_view_no_creation_ctx)
    ∷ (1600, er_view_invalid_creation_ctx)
    ∷ (1601, er_sr_invalid_creation_ctx)
    ∷ (1602, er_trg_corrupted_file)
    ∷ (1603, er_trg_no_creation_ctx)
    ∷ (1604, er_trg_invalid_creation_ctx)
    ∷ (1605, er_event_invalid_creation_ctx)
    ∷ (1606, er_trg_cant_open_table)
    ∷ (1607, er_cant_create_sroutine)
    ∷ (1608, er_unused_11)
    ∷ (1609, er_no_format_description_event_before_binlog_statement)
    ∷ (1610, er_slave_corrupt_event)
    ∷ (1611, er_load_data_invalid_column)
    ∷ (1612, er_log_purge_no_file)
    ∷ (1613, er_xa_rbtimeout)
    ∷ (1614, er_xa_rbdeadlock)
    ∷ (1615, er_need_reprepare)
    ∷ (1616, er_delayed_not_supported)
    ∷ (1617, warn_no_master_inf)
    ∷ (1618, warn_option_ignored)
    ∷ (1619, warn_plugin_delete_builtin)
    ∷ (1620, warn_plugin_busy)
    ∷ (1621, er_variable_is_readonly)
    ∷ (1622, er_warn_engine_transaction_rollback)
    ∷ (1623, er_slave_heartbeat_failure)
    ∷ (1624, er_slave_heartbeat_value_out_of_range)
    ∷ (1625, er_ndb_replication_schema_error)
    ∷ (1626, er_conflict_fn_parse_error)
    ∷ (1627, er_exceptions_write_error)
    ∷ (1628, er_too_long_table_comment)
    ∷ (1629, er_too_long_field_comment)
    ∷ (1630, er_func_inexistent_name_collision)
    ∷ (1631, er_database_name)
    ∷ (1632, er_table_name)
    ∷ (1633, er_partition_name)
    ∷ (1634, er_subpartition_name)
    ∷ (1635, er_temporary_name)
    ∷ (1636, er_renamed_name)
    ∷ (1637, er_too_many_concurrent_trxs)
    ∷ (1638, warn_non_ascii_separator_not_implemented)
    ∷ (1639, er_debug_sync_timeout)
    ∷ (1640, er_debug_sync_hit_limit)
    ∷ (1641, er_dup_signal_set)
    ∷ (1642, er_signal_warn)
    ∷ (1643, er_signal_not_found)
    ∷ (1644, er_signal_exception)
    ∷ (1645, er_resignal_without_active_handler)
    ∷ (1646, er_signal_bad_condition_type)
    ∷ (1647, warn_cond_item_truncated)
    ∷ (1648, er_cond_item_too_long)
    ∷ (1649, er_unknown_locale)
    ∷ (1650, er_slave_ignore_server_ids)
    ∷ (1651, er_query_cache_disabled)
    ∷ (1652, er_same_name_partition_field)
    ∷ (1653, er_partition_column_list_error)
    ∷ (1654, er_wrong_type_column_value_error)
    ∷ (1655, er_too_many_partition_func_fields_error)
    ∷ (1656, er_maxvalue_in_values_in)
    ∷ (1657, er_too_many_values_error)
    ∷ (1658, er_row_single_partition_field_error)
    ∷ (1659, er_field_type_not_allowed_as_partition_field)
    ∷ (1660, er_partition_fields_too_long)
    ∷ (1661, er_binlog_row_engine_and_stmt_engine)
    ∷ (1662, er_binlog_row_mode_and_stmt_engine)
    ∷ (1663, er_binlog_unsafe_and_stmt_engine)
    ∷ (1664, er_binlog_row_injection_and_stmt_engine)
    ∷ (1665, er_binlog_stmt_mode_and_row_engine)
    ∷ (1666, er_binlog_row_injection_and_stmt_mode)
    ∷ (1667, er_binlog_multiple_engines_and_self_logging_engine)
    ∷ (1668, er_binlog_unsafe_limit)
    ∷ (1669, er_binlog_unsafe_insert_delayed)
    ∷ (1670, er_binlog_unsafe_system_table)
    ∷ (1671, er_binlog_unsafe_autoinc_columns)
    ∷ (1672, er_binlog_unsafe_udf)
    ∷ (1673, er_binlog_unsafe_system_variable)
    ∷ (1674, er_binlog_unsafe_system_function)
    ∷ (1675, er_binlog_unsafe_nontrans_after_trans)
    ∷ (1676, er_message_and_statement)
    ∷ (1677, er_slave_conversion_failed)
    ∷ (1678, er_slave_cant_create_conversion)
    ∷ (1679, er_inside_transaction_prevents_switch_binlog_format)
    ∷ (1680, er_path_length)
    ∷ (1681, er_warn_deprecated_syntax_no_replacement)
    ∷ (1682, er_wrong_native_table_structure)
    ∷ (1683, er_wrong_perfschema_usage)
    ∷ (1684, er_warn_i_s_skipped_table)
    ∷ (1685, er_inside_transaction_prevents_switch_binlog_direct)
    ∷ (1686, er_stored_function_prevents_switch_binlog_direct)
    ∷ (1687, er_spatial_must_have_geom_col)
    ∷ (1688, er_too_long_index_comment)
    ∷ (1689, er_lock_aborted)
    ∷ (1690, er_data_out_of_range)
    ∷ (1691, er_wrong_spvar_type_in_limit)
    ∷ (1692, er_binlog_unsafe_multiple_engines_and_self_logging_engine)
    ∷ (1693, er_binlog_unsafe_mixed_statement)
    ∷ (1694, er_inside_transaction_prevents_switch_sql_log_bin)
    ∷ (1695, er_stored_function_prevents_switch_sql_log_bin)
    ∷ (1696, er_failed_read_from_par_file)
    ∷ (1697, er_values_is_not_int_type_error)
    ∷ (1698, er_access_denied_no_password_error)
    ∷ (1699, er_set_password_auth_plugin)
    ∷ (1700, er_grant_plugin_user_exists)
    ∷ (1701, er_truncate_illegal_fk)
    ∷ (1702, er_plugin_is_permanent)
    ∷ (1703, er_slave_heartbeat_value_out_of_range_min)
    ∷ (1704, er_slave_heartbeat_value_out_of_range_max)
    ∷ (1705, er_stmt_cache_full)
    ∷ (1706, er_multi_update_key_conflict)
    ∷ (1707, er_table_needs_rebuild)
    ∷ (1708, warn_option_below_limit)
    ∷ (1709, er_index_column_too_long)
    ∷ (1710, er_error_in_trigger_body)
    ∷ (1711, er_error_in_unknown_trigger_body)
    ∷ (1712, er_index_corrupt)
    ∷ (1713, er_undo_record_too_big)
    ∷ (1714, er_binlog_unsafe_insert_ignore_select)
    ∷ (1715, er_binlog_unsafe_insert_select_update)
    ∷ (1716, er_binlog_unsafe_replace_select)
    ∷ (1717, er_binlog_unsafe_create_ignore_select)
    ∷ (1718, er_binlog_unsafe_create_replace_select)
    ∷ (1719, er_binlog_unsafe_update_ignore)
    ∷ (1720, er_plugin_no_uninstall)
    ∷ (1721, er_plugin_no_install)
    ∷ (1722, er_binlog_unsafe_write_autoinc_select)
    ∷ (1723, er_binlog_unsafe_create_select_autoinc)
    ∷ (1724, er_binlog_unsafe_insert_two_keys)
    ∷ (1725, er_table_in_fk_check)
    ∷ (1726, er_unsupported_engine)
    ∷ (1727, er_binlog_unsafe_autoinc_not_first)
    ∷ (1728, er_cannot_load_from_table_v2)
    ∷ (1729, er_master_delay_value_out_of_range)
    ∷ (1730, er_only_fd_and_rbr_events_allowed_in_binlog_statement)
    ∷ (1731, er_partition_exchange_different_option)
    ∷ (1732, er_partition_exchange_part_table)
    ∷ (1733, er_partition_exchange_temp_table)
    ∷ (1734, er_partition_instead_of_subpartition)
    ∷ (1735, er_unknown_partition)
    ∷ (1736, er_tables_different_metadata)
    ∷ (1737, er_row_does_not_match_partition)
    ∷ (1738, er_binlog_cache_size_greater_than_max)
    ∷ (1739, er_warn_index_not_applicable)
    ∷ (1740, er_partition_exchange_foreign_key)
    ∷ (1741, er_no_such_key_value)
    ∷ (1742, er_rpl_info_data_too_long)
    ∷ (1743, er_network_read_event_checksum_failure)
    ∷ (1744, er_binlog_read_event_checksum_failure)
    ∷ (1745, er_binlog_stmt_cache_size_greater_than_max)
    ∷ (1746, er_cant_update_table_in_create_table_select)
    ∷ (1747, er_partition_clause_on_nonpartitioned)
    ∷ (1748, er_row_does_not_match_given_partition_set)
    ∷ (1749, er_no_such_partition_unused)
    ∷ (1750, er_change_rpl_info_repository_failure)
    ∷ (1751, er_warning_not_complete_rollback_with_created_temp_table)
    ∷ (1752, er_warning_not_complete_rollback_with_dropped_temp_table)
    ∷ (1753, er_mts_feature_is_not_supported)
    ∷ (1754, er_mts_updated_dbs_greater_max)
    ∷ (1755, er_mts_cant_parallel)
    ∷ (1756, er_mts_inconsistent_data)
    ∷ (1757, er_fulltext_not_supported_with_partitioning)
    ∷ (1758, er_da_invalid_condition_number)
    ∷ (1759, er_insecure_plain_text)
    ∷ (1760, er_insecure_change_master)
    ∷ (1761, er_foreign_duplicate_key_with_child_info)
    ∷ (1762, er_foreign_duplicate_key_without_child_info)
    ∷ (1763, er_sqlthread_with_secure_slave)
    ∷ (1764, er_table_has_no_ft)
    ∷ (1765, er_variable_not_settable_in_sf_or_trigger)
    ∷ (1766, er_variable_not_settable_in_transaction)
    ∷ (1767, er_gtid_next_is_not_in_gtid_next_list)
    ∷ (1768, er_cant_change_gtid_next_in_transaction_when_gtid_next_list_is_null)
    ∷ (1769, er_set_statement_cannot_invoke_function)
    ∷ (1770, er_gtid_next_cant_be_automatic_if_gtid_next_list_is_non_null)
    ∷ (1771, er_skipping_logged_transaction)
    ∷ (1772, er_malformed_gtid_set_specification)
    ∷ (1773, er_malformed_gtid_set_encoding)
    ∷ (1774, er_malformed_gtid_specification)
    ∷ (1775, er_gno_exhausted)
    ∷ (1776, er_bad_slave_auto_position)
    ∷ (1777, er_auto_position_requires_gtid_mode_on)
    ∷ (1778, er_cant_do_implicit_commit_in_trx_when_gtid_next_is_set)
    ∷ (1779, er_gtid_mode_2_or_3_requires_disable_gtid_unsafe_statements_on)
    ∷ (1780, er_gtid_mode_requires_binlog)
    ∷ (1781, er_cant_set_gtid_next_to_gtid_when_gtid_mode_is_off)
    ∷ (1782, er_cant_set_gtid_next_to_anonymous_when_gtid_mode_is_on)
    ∷ (1783, er_cant_set_gtid_next_list_to_non_null_when_gtid_mode_is_off)
    ∷ (1784, er_found_gtid_event_when_gtid_mode_is_off)
    ∷ (1785, er_gtid_unsafe_non_transactional_table)
    ∷ (1786, er_gtid_unsafe_create_select)
    ∷ (1787, er_gtid_unsafe_create_drop_temporary_table_in_transaction)
    ∷ (1788, er_gtid_mode_can_only_change_one_step_at_a_time)
    ∷ (1789, er_master_has_purged_required_gtids)
    ∷ (1790, er_cant_set_gtid_next_when_owning_gtid)
    ∷ (1791, er_unknown_explain_format)
    ∷ (1792, er_cant_execute_in_read_only_transaction)
    ∷ (1793, er_too_long_table_partition_comment)
    ∷ (1794, er_slave_configuration)
    ∷ (1795, er_innodb_ft_limit)
    ∷ (1796, er_innodb_no_ft_temp_table)
    ∷ (1797, er_innodb_ft_wrong_docid_column)
    ∷ (1798, er_innodb_ft_wrong_docid_index)
    ∷ (1799, er_innodb_online_log_too_big)
    ∷ (1800, er_unknown_alter_algorithm)
    ∷ (1801, er_unknown_alter_lock)
    ∷ (1802, er_mts_change_master_cant_run_with_gaps)
    ∷ (1803, er_mts_recovery_failure)
    ∷ (1804, er_mts_reset_workers)
    ∷ (1805, er_col_count_doesnt_match_corrupted_v2)
    ∷ (1806, er_slave_silent_retry_transaction)
    ∷ (1807, er_discard_fk_checks_running)
    ∷ (1808, er_table_schema_mismatch)
    ∷ (1809, er_table_in_system_tablespace)
    ∷ (1810, er_io_read_error)
    ∷ (1811, er_io_write_error)
    ∷ (1812, er_tablespace_missing)
    ∷ (1813, er_tablespace_exists)
    ∷ (1814, er_tablespace_discarded)
    ∷ (1815, er_internal_error)
    ∷ (1816, er_innodb_import_error)
    ∷ (1817, er_innodb_index_corrupt)
    ∷ (1818, er_invalid_year_column_length)
    ∷ (1819, er_not_valid_password)
    ∷ (1820, er_must_change_password)
    ∷ (1821, er_fk_no_index_child)
    ∷ (1822, er_fk_no_index_parent)
    ∷ (1823, er_fk_fail_add_system)
    ∷ (1824, er_fk_cannot_open_parent)
    ∷ (1825, er_fk_incorrect_option)
    ∷ (1826, er_fk_dup_name)
    ∷ (1827, er_password_format)
    ∷ (1828, er_fk_column_cannot_drop)
    ∷ (1829, er_fk_column_cannot_drop_child)
    ∷ (1830, er_fk_column_not_null)
    ∷ (1831, er_dup_index)
    ∷ (1832, er_fk_column_cannot_change)
    ∷ (1833, er_fk_column_cannot_change_child)
    ∷ (1834, er_fk_cannot_delete_parent)
    ∷ (1835, er_malformed_packet)
    ∷ (1836, er_read_only_mode)
    ∷ (1837, er_gtid_next_type_undefined_group)
    ∷ (1838, er_variable_not_settable_in_sp)
    ∷ (1839, er_cant_set_gtid_purged_when_gtid_mode_is_off)
    ∷ (1840, er_cant_set_gtid_purged_when_gtid_executed_is_not_empty)
    ∷ (1841, er_cant_set_gtid_purged_when_owned_gtids_is_not_empty)
    ∷ (1842, er_gtid_purged_was_changed)
    ∷ (1843, er_gtid_executed_was_changed)
    ∷ (1844, er_binlog_stmt_mode_and_no_repl_tables)
    ∷ (1845, er_alter_operation_not_supported)
    ∷ (1846, er_alter_operation_not_supported_reason)
    ∷ (1847, er_alter_operation_not_supported_reason_copy)
    ∷ (1848, er_alter_operation_not_supported_reason_partition)
    ∷ (1849, er_alter_operation_not_supported_reason_fk_rename)
    ∷ (1850, er_alter_operation_not_supported_reason_column_type)
    ∷ (1851, er_alter_operation_not_supported_reason_fk_check)
    ∷ (1852, er_alter_operation_not_supported_reason_ignore)
    ∷ (1853, er_alter_operation_not_supported_reason_nopk)
    ∷ (1854, er_alter_operation_not_supported_reason_autoinc)
    ∷ (1855, er_alter_operation_not_supported_reason_hidden_fts)
    ∷ (1856, er_alter_operation_not_supported_reason_change_fts)
    ∷ (1857, er_alter_operation_not_supported_reason_fts)
    ∷ (1858, er_sql_slave_skip_counter_not_settable_in_gtid_mode)
    ∷ (1859, er_dup_unknown_in_index)
    ∷ (1860, er_ident_causes_too_long_path)
    ∷ (1861, er_alter_operation_not_supported_reason_not_null)
    ∷ (1862, er_must_change_password_login)
    ∷ (1863, er_row_in_wrong_partition)
    ∷ (1864, er_mts_event_bigger_pending_jobs_size_max)
    ∷ (1865, er_innodb_no_ft_uses_parser)
    ∷ (1866, er_binlog_logical_corruption)
    ∷ (1867, er_warn_purge_log_in_use)
    ∷ (1868, er_warn_purge_log_is_active)
    ∷ (1869, er_auto_increment_conflict)
    ∷ (1870, warn_on_blockhole_in_rbr)
    ∷ (1871, er_slave_mi_init_repository)
    ∷ (1872, er_slave_rli_init_repository)
    ∷ (1873, er_access_denied_change_user_error)
    ∷ (1874, er_innodb_read_only)
    ∷ (1875, er_stop_slave_sql_thread_timeout)
    ∷ (1876, er_stop_slave_io_thread_timeout)
    ∷ (1877, er_table_corrupt)
    ∷ (1878, er_temp_file_write_failure)
    ∷ (1879, er_innodb_ft_aux_not_hex_id)
    ∷ (1880, er_old_temporals_upgraded)
    ∷ (1881, er_innodb_forced_recovery)
    ∷ (1882, er_aes_invalid_iv)
    ∷ (1883, er_plugin_cannot_be_uninstalled)
    ∷ (1884, er_gtid_unsafe_binlog_splittable_statement_and_gtid_group)
    ∷ (1885, er_slave_has_more_gtids_than_master)
    ∷ []

-- `none` is the panic on a number that is no error kind.
unfoldable pub from_code : ℕ → Option ErrorKind
from_code x = first_arm arms x

-- `[u8; 5]`.
abbrev pub FiveBytes : Type 0
FiveBytes = ℕ × ℕ × ℕ × ℕ × ℕ

unfoldable pub sqlstate : ErrorKind → FiveBytes
sqlstate er_bad_host_error = (b'0', b'8', b'S', b'0', b'1')
sqlstate er_handshake_error = (b'0', b'8', b'S', b'0', b'1')
sqlstate er_unknown_com_error = (b'0', b'8', b'S', b'0', b'1')
sqlstate er_server_shutdown = (b'0', b'8', b'S', b'0', b'1')
sqlstate er_forcing_close = (b'0', b'8', b'S', b'0', b'1')
sqlstate er_ipsock_error = (b'0', b'8', b'S', b'0', b'1')
sqlstate er_aborting_connection = (b'0', b'8', b'S', b'0', b'1')
sqlstate er_net_packet_too_large = (b'0', b'8', b'S', b'0', b'1')
sqlstate er_net_read_error_from_pipe = (b'0', b'8', b'S', b'0', b'1')
sqlstate er_net_fcntl_error = (b'0', b'8', b'S', b'0', b'1')
sqlstate er_net_packets_out_of_order = (b'0', b'8', b'S', b'0', b'1')
sqlstate er_net_uncompress_error = (b'0', b'8', b'S', b'0', b'1')
sqlstate er_net_read_error = (b'0', b'8', b'S', b'0', b'1')
sqlstate er_net_read_interrupted = (b'0', b'8', b'S', b'0', b'1')
sqlstate er_net_error_on_write = (b'0', b'8', b'S', b'0', b'1')
sqlstate er_net_write_interrupted = (b'0', b'8', b'S', b'0', b'1')
sqlstate er_new_aborting_connection = (b'0', b'8', b'S', b'0', b'1')
sqlstate er_master_net_read = (b'0', b'8', b'S', b'0', b'1')
sqlstate er_master_net_write = (b'0', b'8', b'S', b'0', b'1')
sqlstate er_connect_to_master = (b'0', b'8', b'S', b'0', b'1')
sqlstate er_no_db_error = (b'3', b'D', b'0', b'0', b'0')
sqlstate er_da_invalid_condition_number = (b'3', b'5', b'0', b'0', b'0')
sqlstate er_table_exists_error = (b'4', b'2', b'S', b'0', b'1')
sqlstate er_sp_fetch_no_data = (b'0', b'2', b'0', b'0', b'0')
sqlstate er_signal_not_found = (b'0', b'2', b'0', b'0', b'0')
sqlstate er_bad_table_error = (b'4', b'2', b'S', b'0', b'2')
sqlstate er_unknown_table = (b'4', b'2', b'S', b'0', b'2')
sqlstate er_no_such_table = (b'4', b'2', b'S', b'0', b'2')
sqlstate er_truncated_wrong_value = (b'2', b'2', b'0', b'0', b'7')
sqlstate er_illegal_value_for_type = (b'2', b'2', b'0', b'0', b'7')
sqlstate er_xa_rbtimeout = (b'X', b'A', b'1', b'0', b'6')
sqlstate er_xaer_dupid = (b'X', b'A', b'E', b'0', b'8')
sqlstate er_xa_rbdeadlock = (b'X', b'A', b'1', b'0', b'2')
sqlstate er_xaer_outside = (b'X', b'A', b'E', b'0', b'9')
sqlstate er_datetime_function_overflow = (b'2', b'2', b'0', b'0', b'8')
sqlstate er_warn_data_out_of_range = (b'2', b'2', b'0', b'0', b'3')
sqlstate er_cant_create_geometry_object = (b'2', b'2', b'0', b'0', b'3')
sqlstate er_data_out_of_range = (b'2', b'2', b'0', b'0', b'3')
sqlstate er_cant_do_this_during_an_transaction = (b'2', b'5', b'0', b'0', b'0')
sqlstate er_read_only_transaction = (b'2', b'5', b'0', b'0', b'0')
sqlstate er_outofmemory = (b'H', b'Y', b'0', b'0', b'1')
sqlstate er_out_of_sortmemory = (b'H', b'Y', b'0', b'0', b'1')
sqlstate er_sp_no_recursive_create = (b'2', b'F', b'0', b'0', b'3')
sqlstate er_dup_key = (b'2', b'3', b'0', b'0', b'0')
sqlstate er_bad_null_error = (b'2', b'3', b'0', b'0', b'0')
sqlstate er_non_uniq_error = (b'2', b'3', b'0', b'0', b'0')
sqlstate er_dup_entry = (b'2', b'3', b'0', b'0', b'0')
sqlstate er_dup_unique = (b'2', b'3', b'0', b'0', b'0')
sqlstate er_no_referenced_row = (b'2', b'3', b'0', b'0', b'0')
sqlstate er_row_is_referenced = (b'2', b'3', b'0', b'0', b'0')
sqlstate er_row_is_referenced_2 = (b'2', b'3', b'0', b'0', b'0')
sqlstate er_no_referenced_row_2 = (b'2', b'3', b'0', b'0', b'0')
sqlstate er_foreign_duplicate_key = (b'2', b'3', b'0', b'0', b'0')
sqlstate er_dup_entry_with_key_name = (b'2', b'3', b'0', b'0', b'0')
sqlstate er_foreign_duplicate_key_with_child_info = (b'2', b'3', b'0', b'0', b'0')
sqlstate er_foreign_duplicate_key_without_child_info = (b'2', b'3', b'0', b'0', b'0')
sqlstate er_dup_unknown_in_index = (b'2', b'3', b'0', b'0', b'0')
sqlstate er_dup_fieldname = (b'4', b'2', b'S', b'2', b'1')
sqlstate er_select_reduced = (b'0', b'1', b'0', b'0', b'0')
sqlstate er_warn_too_few_records = (b'0', b'1', b'0', b'0', b'0')
sqlstate er_warn_too_many_records = (b'0', b'1', b'0', b'0', b'0')
sqlstate warn_data_truncated = (b'0', b'1', b'0', b'0', b'0')
sqlstate er_sp_uninit_var = (b'0', b'1', b'0', b'0', b'0')
sqlstate er_signal_warn = (b'0', b'1', b'0', b'0', b'0')
sqlstate er_xaer_rmerr = (b'X', b'A', b'E', b'0', b'3')
sqlstate er_xaer_rmfail = (b'X', b'A', b'E', b'0', b'7')
sqlstate er_no_such_index = (b'4', b'2', b'S', b'1', b'2')
sqlstate er_cant_execute_in_read_only_transaction = (b'2', b'5', b'0', b'0', b'6')
sqlstate er_sp_badselect = (b'0', b'A', b'0', b'0', b'0')
sqlstate er_sp_badstatement = (b'0', b'A', b'0', b'0', b'0')
sqlstate er_sp_subselect_nyi = (b'0', b'A', b'0', b'0', b'0')
sqlstate er_stmt_not_allowed_in_sf_or_trg = (b'0', b'A', b'0', b'0', b'0')
sqlstate er_sp_no_retset = (b'0', b'A', b'0', b'0', b'0')
sqlstate er_alter_operation_not_supported = (b'0', b'A', b'0', b'0', b'0')
sqlstate er_alter_operation_not_supported_reason = (b'0', b'A', b'0', b'0', b'0')
sqlstate er_wrong_value_count = (b'2', b'1', b'S', b'0', b'1')
sqlstate er_wrong_value_count_on_row = (b'2', b'1', b'S', b'0', b'1')
sqlstate er_access_denied_error = (b'2', b'8', b'0', b'0', b'0')
sqlstate er_access_denied_no_password_error = (b'2', b'8', b'0', b'0', b'0')
sqlstate er_access_denied_change_user_error = (b'2', b'8', b'0', b'0', b'0')
sqlstate er_sp_cursor_already_open = (b'2', b'4', b'0', b'0', b'0')
sqlstate er_sp_cursor_not_open = (b'2', b'4', b'0', b'0', b'0')
sqlstate er_query_interrupted = (b'7', b'0', b'1', b'0', b'0')
sqlstate er_sp_noreturnend = (b'2', b'F', b'0', b'0', b'5')
sqlstate er_con_count_error = (b'0', b'8', b'0', b'0', b'4')
sqlstate er_not_supported_auth_mode = (b'0', b'8', b'0', b'0', b'4')
sqlstate er_dbaccess_denied_error = (b'4', b'2', b'0', b'0', b'0')
sqlstate er_bad_db_error = (b'4', b'2', b'0', b'0', b'0')
sqlstate er_wrong_field_with_group = (b'4', b'2', b'0', b'0', b'0')
sqlstate er_wrong_group_field = (b'4', b'2', b'0', b'0', b'0')
sqlstate er_wrong_sum_select = (b'4', b'2', b'0', b'0', b'0')
sqlstate er_too_long_ident = (b'4', b'2', b'0', b'0', b'0')
sqlstate er_dup_keyname = (b'4', b'2', b'0', b'0', b'0')
sqlstate er_wrong_field_spec = (b'4', b'2', b'0', b'0', b'0')
sqlstate er_parse_error = (b'4', b'2', b'0', b'0', b'0')
sqlstate er_empty_query = (b'4', b'2', b'0', b'0', b'0')
sqlstate er_nonuniq_table = (b'4', b'2', b'0', b'0', b'0')
sqlstate er_invalid_default = (b'4', b'2', b'0', b'0', b'0')
sqlstate er_multiple_pri_key = (b'4', b'2', b'0', b'0', b'0')
sqlstate er_too_many_keys = (b'4', b'2', b'0', b'0', b'0')
sqlstate er_too_many_key_parts = (b'4', b'2', b'0', b'0', b'0')
sqlstate er_too_long_key = (b'4', b'2', b'0', b'0', b'0')
sqlstate er_key_column_does_not_exits = (b'4', b'2', b'0', b'0', b'0')
sqlstate er_blob_used_as_key = (b'4', b'2', b'0', b'0', b'0')
sqlstate er_too_big_fieldlength = (b'4', b'2', b'0', b'0', b'0')
sqlstate er_wrong_auto_key = (b'4', b'2', b'0', b'0', b'0')
sqlstate er_wrong_field_terminators = (b'4', b'2', b'0', b'0', b'0')
sqlstate er_blobs_and_no_terminated = (b'4', b'2', b'0', b'0', b'0')
sqlstate er_cant_remove_all_fields = (b'4', b'2', b'0', b'0', b'0')
sqlstate er_cant_drop_field_or_key = (b'4', b'2', b'0', b'0', b'0')
sqlstate er_blob_cant_have_default = (b'4', b'2', b'0', b'0', b'0')
sqlstate er_wrong_db_name = (b'4', b'2', b'0', b'0', b'0')
sqlstate er_wrong_table_name = (b'4', b'2', b'0', b'0', b'0')
sqlstate er_too_big_select = (b'4', b'2', b'0', b'0', b'0')
sqlstate er_unknown_procedure = (b'4', b'2', b'0', b'0', b'0')
sqlstate er_wrong_paramcount_to_procedure = (b'4', b'2', b'0', b'0', b'0')
sqlstate er_field_specified_twice = (b'4', b'2', b'0', b'0', b'0')
sqlstate er_unsupported_extension = (b'4', b'2', b'0', b'0', b'0')
sqlstate er_table_must_have_columns = (b'4', b'2', b'0', b'0', b'0')
sqlstate er_unknown_character_set = (b'4', b'2', b'0', b'0', b'0')
sqlstate er_too_big_rowsize = (b'4', b'2', b'0', b'0', b'0')
sqlstate er_wrong_outer_join = (b'4', b'2', b'0', b'0', b'0')
sqlstate er_null_column_in_index = (b'4', b'2', b'0', b'0', b'0')
sqlstate er_password_anonymous_user = (b'4', b'2', b'0', b'0', b'0')
sqlstate er_password_not_allowed = (b'4', b'2', b'0', b'0', b'0')
sqlstate er_password_no_match = (b'4', b'2', b'0', b'0', b'0')
sqlstate er_regexp_error = (b'4', b'2', b'0', b'0', b'0')
sqlstate er_mix_of_group_func_and_fields = (b'4', b'2', b'0', b'0', b'0')
sqlstate er_nonexisting_grant = (b'4', b'2', b'0', b'0', b'0')
sqlstate er_tableaccess_denied_error = (b'4', b'2', b'0', b'0', b'0')
sqlstate er_columnaccess_denied_error = (b'4', b'2', b'0', b'0', b'0')
sqlstate er_illegal_grant_for_table = (b'4', b'2', b'0', b'0', b'0')
sqlstate er_grant_wrong_host_or_user = (b'4', b'2', b'0', b'0', b'0')
sqlstate er_nonexisting_table_grant = (b'4', b'2', b'0', b'0', b'0')
sqlstate er_not_allowed_command = (b'4', b'2', b'0', b'0', b'0')
sqlstate er_syntax_error = (b'4', b'2', b'0', b'0', b'0')
sqlstate er_too_long_string = (b'4', b'2', b'0', b'0', b'0')
sqlstate er_table_cant_handle_blob = (b'4', b'2', b'0', b'0', b'0')
sqlstate er_table_cant_handle_auto_increment = (b'4', b'2', b'0', b'0', b'0')
sqlstate er_wrong_column_name = (b'4', b'2', b'0', b'0', b'0')
sqlstate er_wrong_key_column = (b'4', b'2', b'0', b'0', b'0')
sqlstate er_blob_key_without_length = (b'4', b'2', b'0', b'0', b'0')
sqlstate er_primary_cant_have_null = (b'4', b'2', b'0', b'0', b'0')
sqlstate er_too_many_rows = (b'4', b'2', b'0', b'0', b'0')
sqlstate er_requires_primary_key = (b'4', b'2', b'0', b'0', b'0')
sqlstate er_key_does_not_exits = (b'4', b'2', b'0', b'0', b'0')
sqlstate er_check_no_such_table = (b'4', b'2', b'0', b'0', b'0')
sqlstate er_check_not_implemented = (b'4', b'2', b'0', b'0', b'0')
sqlstate er_too_many_user_connections = (b'4', b'2', b'0', b'0', b'0')
sqlstate er_no_permission_to_create_user = (b'4', b'2', b'0', b'0', b'0')
sqlstate er_user_limit_reached = (b'4', b'2', b'0', b'0', b'0')
sqlstate er_specific_access_denied_error = (b'4', b'2', b'0', b'0', b'0')
sqlstate er_no_default = (b'4', b'2', b'0', b'0', b'0')
sqlstate er_wrong_value_for_var = (b'4', b'2', b'0', b'0', b'0')
sqlstate er_wrong_type_for_var = (b'4', b'2', b'0', b'0', b'0')
sqlstate er_cant_use_option_here = (b'4', b'2', b'0', b'0', b'0')
sqlstate er_not_supported_yet = (b'4', b'2', b'0', b'0', b'0')
sqlstate er_wrong_fk_def = (b'4', b'2', b'0', b'0', b'0')
sqlstate er_derived_must_have_alias = (b'4', b'2', b'0', b'0', b'0')
sqlstate er_tablename_not_allowed_here = (b'4', b'2', b'0', b'0', b'0')
sqlstate er_spatial_cant_have_null = (b'4', b'2', b'0', b'0', b'0')
sqlstate er_collation_charset_mismatch = (b'4', b'2', b'0', b'0', b'0')
sqlstate er_wrong_name_for_index = (b'4', b'2', b'0', b'0', b'0')
sqlstate er_wrong_name_for_catalog = (b'4', b'2', b'0', b'0', b'0')
sqlstate er_unknown_storage_engine = (b'4', b'2', b'0', b'0', b'0')
sqlstate er_sp_already_exists = (b'4', b'2', b'0', b'0', b'0')
sqlstate er_sp_does_not_exist = (b'4', b'2', b'0', b'0', b'0')
sqlstate er_sp_lilabel_mismatch = (b'4', b'2', b'0', b'0', b'0')
sqlstate er_sp_label_redefine = (b'4', b'2', b'0', b'0', b'0')
sqlstate er_sp_label_mismatch = (b'4', b'2', b'0', b'0', b'0')
sqlstate er_sp_badreturn = (b'4', b'2', b'0', b'0', b'0')
sqlstate er_update_log_deprecated_ignored = (b'4', b'2', b'0', b'0', b'0')
sqlstate er_update_log_deprecated_translated = (b'4', b'2', b'0', b'0', b'0')
sqlstate er_sp_wrong_no_of_args = (b'4', b'2', b'0', b'0', b'0')
sqlstate er_sp_cond_mismatch = (b'4', b'2', b'0', b'0', b'0')
sqlstate er_sp_noreturn = (b'4', b'2', b'0', b'0', b'0')
sqlstate er_sp_bad_cursor_query = (b'4', b'2', b'0', b'0', b'0')
sqlstate er_sp_bad_cursor_select = (b'4', b'2', b'0', b'0', b'0')
sqlstate er_sp_cursor_mismatch = (b'4', b'2', b'0', b'0', b'0')
sqlstate er_sp_undeclared_var = (b'4', b'2', b'0', b'0', b'0')
sqlstate er_sp_dup_param = (b'4', b'2', b'0', b'0', b'0')
sqlstate er_sp_dup_var = (b'4', b'2', b'0', b'0', b'0')
sqlstate er_sp_dup_cond = (b'4', b'2', b'0', b'0', b'0')
sqlstate er_sp_dup_curs = (b'4', b'2', b'0', b'0', b'0')
sqlstate er_sp_varcond_after_curshndlr = (b'4', b'2', b'0', b'0', b'0')
sqlstate er_sp_cursor_after_handler = (b'4', b'2', b'0', b'0', b'0')
sqlstate er_procaccess_denied_error = (b'4', b'2', b'0', b'0', b'0')
sqlstate er_nonexisting_proc_grant = (b'4', b'2', b'0', b'0', b'0')
sqlstate er_sp_bad_sqlstate = (b'4', b'2', b'0', b'0', b'0')
sqlstate er_cant_create_user_with_grant = (b'4', b'2', b'0', b'0', b'0')
sqlstate er_sp_dup_handler = (b'4', b'2', b'0', b'0', b'0')
sqlstate er_sp_not_var_arg = (b'4', b'2', b'0', b'0', b'0')
sqlstate er_too_big_scale = (b'4', b'2', b'0', b'0', b'0')
sqlstate er_too_big_precision = (b'4', b'2', b'0', b'0', b'0')
sqlstate er_m_bigger_than_d = (b'4', b'2', b'0', b'0', b'0')
sqlstate er_too_long_body = (b'4', b'2', b'0', b'0', b'0')
sqlstate er_too_big_displaywidth = (b'4', b'2', b'0', b'0', b'0')
sqlstate er_sp_bad_var_shadow = (b'4', b'2', b'0', b'0', b'0')
sqlstate er_sp_wrong_name = (b'4', b'2', b'0', b'0', b'0')
sqlstate er_sp_no_aggregate = (b'4', b'2', b'0', b'0', b'0')
sqlstate er_max_prepared_stmt_count_reached = (b'4', b'2', b'0', b'0', b'0')
sqlstate er_non_grouping_field_used = (b'4', b'2', b'0', b'0', b'0')
sqlstate er_wrong_paramcount_to_native_fct = (b'4', b'2', b'0', b'0', b'0')
sqlstate er_wrong_parameters_to_native_fct = (b'4', b'2', b'0', b'0', b'0')
sqlstate er_wrong_parameters_to_stored_fct = (b'4', b'2', b'0', b'0', b'0')
sqlstate er_func_inexistent_name_collision = (b'4', b'2', b'0', b'0', b'0')
sqlstate er_dup_signal_set = (b'4', b'2', b'0', b'0', b'0')
sqlstate er_spatial_must_have_geom_col = (b'4', b'2', b'0', b'0', b'0')
sqlstate er_truncate_illegal_fk = (b'4', b'2', b'0', b'0', b'0')
sqlstate er_resignal_without_active_handler = (b'0', b'K', b'0', b'0', b'0')
sqlstate er_cant_change_tx_isolation = (b'2', b'5', b'0', b'0', b'1')
sqlstate er_invalid_use_of_null = (b'2', b'2', b'0', b'0', b'4')
sqlstate er_warn_null_to_notnull = (b'2', b'2', b'0', b'0', b'4')
sqlstate er_sp_case_not_found = (b'2', b'0', b'0', b'0', b'0')
sqlstate er_division_by_zer = (b'2', b'2', b'0', b'1', b'2')
sqlstate er_bad_field_error = (b'4', b'2', b'S', b'2', b'2')
sqlstate er_illegal_reference = (b'4', b'2', b'S', b'2', b'2')
sqlstate er_xaer_inval = (b'X', b'A', b'E', b'0', b'5')
sqlstate er_hashchk = (b'H', b'Y', b'0', b'0', b'0')
sqlstate er_nisamchk = (b'H', b'Y', b'0', b'0', b'0')
sqlstate er_no = (b'H', b'Y', b'0', b'0', b'0')
sqlstate er_yes = (b'H', b'Y', b'0', b'0', b'0')
sqlstate er_cant_create_file = (b'H', b'Y', b'0', b'0', b'0')
sqlstate er_cant_create_table = (b'H', b'Y', b'0', b'0', b'0')
sqlstate er_cant_create_db = (b'H', b'Y', b'0', b'0', b'0')
sqlstate er_db_create_exists = (b'H', b'Y', b'0', b'0', b'0')
sqlstate er_db_drop_exists = (b'H', b'Y', b'0', b'0', b'0')
sqlstate er_db_drop_delete = (b'H', b'Y', b'0', b'0', b'0')
sqlstate er_db_drop_rmdir = (b'H', b'Y', b'0', b'0', b'0')
sqlstate er_cant_delete_file = (b'H', b'Y', b'0', b'0', b'0')
sqlstate er_cant_find_system_rec = (b'H', b'Y', b'0', b'0', b'0')
sqlstate er_cant_get_stat = (b'H', b'Y', b'0', b'0', b'0')
sqlstate er_cant_get_wd = (b'H', b'Y', b'0', b'0', b'0')
sqlstate er_cant_lock = (b'H', b'Y', b'0', b'0', b'0')
sqlstate er_cant_open_file = (b'H', b'Y', b'0', b'0', b'0')
sqlstate er_file_not_found = (b'H', b'Y', b'0', b'0', b'0')
sqlstate er_cant_read_dir = (b'H', b'Y', b'0', b'0', b'0')
sqlstate er_cant_set_wd = (b'H', b'Y', b'0', b'0', b'0')
sqlstate er_checkread = (b'H', b'Y', b'0', b'0', b'0')
sqlstate er_disk_full = (b'H', b'Y', b'0', b'0', b'0')
sqlstate er_error_on_close = (b'H', b'Y', b'0', b'0', b'0')
sqlstate er_error_on_read = (b'H', b'Y', b'0', b'0', b'0')
sqlstate er_error_on_rename = (b'H', b'Y', b'0', b'0', b'0')
sqlstate er_error_on_write = (b'H', b'Y', b'0', b'0', b'0')
sqlstate er_file_used = (b'H', b'Y', b'0', b'0', b'0')
sqlstate er_filsort_abort = (b'H', b'Y', b'0', b'0', b'0')
sqlstate er_form_not_found = (b'H', b'Y', b'0', b'0', b'0')
sqlstate er_get_errn = (b'H', b'Y', b'0', b'0', b'0')
sqlstate er_illegal_ha = (b'H', b'Y', b'0', b'0', b'0')
sqlstate er_key_not_found = (b'H', b'Y', b'0', b'0', b'0')
sqlstate er_not_form_file = (b'H', b'Y', b'0', b'0', b'0')
sqlstate er_not_keyfile = (b'H', b'Y', b'0', b'0', b'0')
sqlstate er_old_keyfile = (b'H', b'Y', b'0', b'0', b'0')
sqlstate er_open_as_readonly = (b'H', b'Y', b'0', b'0', b'0')
sqlstate er_unexpected_eof = (b'H', b'Y', b'0', b'0', b'0')
sqlstate er_out_of_resources = (b'H', b'Y', b'0', b'0', b'0')
sqlstate er_ready = (b'H', b'Y', b'0', b'0', b'0')
sqlstate er_normal_shutdown = (b'H', b'Y', b'0', b'0', b'0')
sqlstate er_got_signal = (b'H', b'Y', b'0', b'0', b'0')
sqlstate er_shutdown_complete = (b'H', b'Y', b'0', b'0', b'0')
sqlstate er_textfile_not_readable = (b'H', b'Y', b'0', b'0', b'0')
sqlstate er_file_exists_error = (b'H', b'Y', b'0', b'0', b'0')
sqlstate er_load_inf = (b'H', b'Y', b'0', b'0', b'0')
sqlstate er_alter_inf = (b'H', b'Y', b'0', b'0', b'0')
sqlstate er_wrong_sub_key = (b'H', b'Y', b'0', b'0', b'0')
sqlstate er_insert_inf = (b'H', b'Y', b'0', b'0', b'0')
sqlstate er_update_table_used = (b'H', b'Y', b'0', b'0', b'0')
sqlstate er_no_such_thread = (b'H', b'Y', b'0', b'0', b'0')
sqlstate er_kill_denied_error = (b'H', b'Y', b'0', b'0', b'0')
sqlstate er_no_tables_used = (b'H', b'Y', b'0', b'0', b'0')
sqlstate er_too_big_set = (b'H', b'Y', b'0', b'0', b'0')
sqlstate er_no_unique_logfile = (b'H', b'Y', b'0', b'0', b'0')
sqlstate er_table_not_locked_for_write = (b'H', b'Y', b'0', b'0', b'0')
sqlstate er_table_not_locked = (b'H', b'Y', b'0', b'0', b'0')
sqlstate er_unknown_error = (b'H', b'Y', b'0', b'0', b'0')
sqlstate er_wrong_parameters_to_procedure = (b'H', b'Y', b'0', b'0', b'0')
sqlstate er_invalid_group_func_use = (b'H', b'Y', b'0', b'0', b'0')
sqlstate er_record_file_full = (b'H', b'Y', b'0', b'0', b'0')
sqlstate er_too_many_tables = (b'H', b'Y', b'0', b'0', b'0')
sqlstate er_too_many_fields = (b'H', b'Y', b'0', b'0', b'0')
sqlstate er_stack_overrun = (b'H', b'Y', b'0', b'0', b'0')
sqlstate er_cant_find_udf = (b'H', b'Y', b'0', b'0', b'0')
sqlstate er_cant_initialize_udf = (b'H', b'Y', b'0', b'0', b'0')
sqlstate er_udf_no_paths = (b'H', b'Y', b'0', b'0', b'0')
sqlstate er_udf_exists = (b'H', b'Y', b'0', b'0', b'0')
sqlstate er_cant_open_library = (b'H', b'Y', b'0', b'0', b'0')
sqlstate er_cant_find_dl_entry = (b'H', b'Y', b'0', b'0', b'0')
sqlstate er_function_not_defined = (b'H', b'Y', b'0', b'0', b'0')
sqlstate er_host_is_blocked = (b'H', b'Y', b'0', b'0', b'0')
sqlstate er_host_not_privileged = (b'H', b'Y', b'0', b'0', b'0')
sqlstate er_update_inf = (b'H', b'Y', b'0', b'0', b'0')
sqlstate er_cant_create_thread = (b'H', b'Y', b'0', b'0', b'0')
sqlstate er_cant_reopen_table = (b'H', b'Y', b'0', b'0', b'0')
sqlstate er_delayed_cant_change_lock = (b'H', b'Y', b'0', b'0', b'0')
sqlstate er_too_many_delayed_threads = (b'H', b'Y', b'0', b'0', b'0')
sqlstate er_delayed_insert_table_locked = (b'H', b'Y', b'0', b'0', b'0')
sqlstate er_wrong_mrg_table = (b'H', b'Y', b'0', b'0', b'0')
sqlstate er_no_raid_compiled = (b'H', b'Y', b'0', b'0', b'0')
sqlstate er_update_without_key_in_safe_mode = (b'H', b'Y', b'0', b'0', b'0')
sqlstate er_error_during_commit = (b'H', b'Y', b'0', b'0', b'0')
sqlstate er_error_during_rollback = (b'H', b'Y', b'0', b'0', b'0')
sqlstate er_error_during_flush_logs = (b'H', b'Y', b'0', b'0', b'0')
sqlstate er_error_during_checkpoint = (b'H', b'Y', b'0', b'0', b'0')
sqlstate er_dump_not_implemented = (b'H', b'Y', b'0', b'0', b'0')
sqlstate er_flush_master_binlog_closed = (b'H', b'Y', b'0', b'0', b'0')
sqlstate er_index_rebuild = (b'H', b'Y', b'0', b'0', b'0')
sqlstate er_master = (b'H', b'Y', b'0', b'0', b'0')
sqlstate er_ft_matching_key_not_found = (b'H', b'Y', b'0', b'0', b'0')
sqlstate er_lock_or_active_transaction = (b'H', b'Y', b'0', b'0', b'0')
sqlstate er_unknown_system_variable = (b'H', b'Y', b'0', b'0', b'0')
sqlstate er_crashed_on_usage = (b'H', b'Y', b'0', b'0', b'0')
sqlstate er_crashed_on_repair = (b'H', b'Y', b'0', b'0', b'0')
sqlstate er_warning_not_complete_rollback = (b'H', b'Y', b'0', b'0', b'0')
sqlstate er_trans_cache_full = (b'H', b'Y', b'0', b'0', b'0')
sqlstate er_slave_must_stop = (b'H', b'Y', b'0', b'0', b'0')
sqlstate er_slave_not_running = (b'H', b'Y', b'0', b'0', b'0')
sqlstate er_bad_slave = (b'H', b'Y', b'0', b'0', b'0')
sqlstate er_master_inf = (b'H', b'Y', b'0', b'0', b'0')
sqlstate er_slave_thread = (b'H', b'Y', b'0', b'0', b'0')
sqlstate er_set_constants_only = (b'H', b'Y', b'0', b'0', b'0')
sqlstate er_lock_wait_timeout = (b'H', b'Y', b'0', b'0', b'0')
sqlstate er_lock_table_full = (b'H', b'Y', b'0', b'0', b'0')
sqlstate er_drop_db_with_read_lock = (b'H', b'Y', b'0', b'0', b'0')
sqlstate er_create_db_with_read_lock = (b'H', b'Y', b'0', b'0', b'0')
sqlstate er_wrong_arguments = (b'H', b'Y', b'0', b'0', b'0')
sqlstate er_union_tables_in_different_dir = (b'H', b'Y', b'0', b'0', b'0')
sqlstate er_table_cant_handle_ft = (b'H', b'Y', b'0', b'0', b'0')
sqlstate er_cannot_add_foreign = (b'H', b'Y', b'0', b'0', b'0')
sqlstate er_query_on_master = (b'H', b'Y', b'0', b'0', b'0')
sqlstate er_error_when_executing_command = (b'H', b'Y', b'0', b'0', b'0')
sqlstate er_wrong_usage = (b'H', b'Y', b'0', b'0', b'0')
sqlstate er_cant_update_with_readlock = (b'H', b'Y', b'0', b'0', b'0')
sqlstate er_mixing_not_allowed = (b'H', b'Y', b'0', b'0', b'0')
sqlstate er_dup_argument = (b'H', b'Y', b'0', b'0', b'0')
sqlstate er_local_variable = (b'H', b'Y', b'0', b'0', b'0')
sqlstate er_global_variable = (b'H', b'Y', b'0', b'0', b'0')
sqlstate er_var_cant_be_read = (b'H', b'Y', b'0', b'0', b'0')
sqlstate er_master_fatal_error_reading_binlog = (b'H', b'Y', b'0', b'0', b'0')
sqlstate er_slave_ignored_table = (b'H', b'Y', b'0', b'0', b'0')
sqlstate er_incorrect_global_local_var = (b'H', b'Y', b'0', b'0', b'0')
sqlstate er_key_ref_do_not_match_table_ref = (b'H', b'Y', b'0', b'0', b'0')
sqlstate er_unknown_stmt_handler = (b'H', b'Y', b'0', b'0', b'0')
sqlstate er_corrupt_help_db = (b'H', b'Y', b'0', b'0', b'0')
sqlstate er_cyclic_reference = (b'H', b'Y', b'0', b'0', b'0')
sqlstate er_auto_convert = (b'H', b'Y', b'0', b'0', b'0')
sqlstate er_slave_was_running = (b'H', b'Y', b'0', b'0', b'0')
sqlstate er_slave_was_not_running = (b'H', b'Y', b'0', b'0', b'0')
sqlstate er_too_big_for_uncompress = (b'H', b'Y', b'0', b'0', b'0')
sqlstate er_zlib_z_mem_error = (b'H', b'Y', b'0', b'0', b'0')
sqlstate er_zlib_z_buf_error = (b'H', b'Y', b'0', b'0', b'0')
sqlstate er_zlib_z_data_error = (b'H', b'Y', b'0', b'0', b'0')
sqlstate er_cut_value_group_concat = (b'H', b'Y', b'0', b'0', b'0')
sqlstate er_warn_using_other_handler = (b'H', b'Y', b'0', b'0', b'0')
sqlstate er_cant_aggregate_2collations = (b'H', b'Y', b'0', b'0', b'0')
sqlstate er_drop_user = (b'H', b'Y', b'0', b'0', b'0')
sqlstate er_revoke_grants = (b'H', b'Y', b'0', b'0', b'0')
sqlstate er_cant_aggregate_3collations = (b'H', b'Y', b'0', b'0', b'0')
sqlstate er_cant_aggregate_ncollations = (b'H', b'Y', b'0', b'0', b'0')
sqlstate er_variable_is_not_struct = (b'H', b'Y', b'0', b'0', b'0')
sqlstate er_unknown_collation = (b'H', b'Y', b'0', b'0', b'0')
sqlstate er_slave_ignored_ssl_params = (b'H', b'Y', b'0', b'0', b'0')
sqlstate er_server_is_in_secure_auth_mode = (b'H', b'Y', b'0', b'0', b'0')
sqlstate er_warn_field_resolved = (b'H', b'Y', b'0', b'0', b'0')
sqlstate er_bad_slave_until_cond = (b'H', b'Y', b'0', b'0', b'0')
sqlstate er_missing_skip_slave = (b'H', b'Y', b'0', b'0', b'0')
sqlstate er_until_cond_ignored = (b'H', b'Y', b'0', b'0', b'0')
sqlstate er_warn_qc_resize = (b'H', b'Y', b'0', b'0', b'0')
sqlstate er_bad_ft_column = (b'H', b'Y', b'0', b'0', b'0')
sqlstate er_unknown_key_cache = (b'H', b'Y', b'0', b'0', b'0')
sqlstate er_warn_hostname_wont_work = (b'H', b'Y', b'0', b'0', b'0')
sqlstate er_warn_deprecated_syntax = (b'H', b'Y', b'0', b'0', b'0')
sqlstate er_non_updatable_table = (b'H', b'Y', b'0', b'0', b'0')
sqlstate er_feature_disabled = (b'H', b'Y', b'0', b'0', b'0')
sqlstate er_option_prevents_statement = (b'H', b'Y', b'0', b'0', b'0')
sqlstate er_duplicated_value_in_type = (b'H', b'Y', b'0', b'0', b'0')
sqlstate er_too_much_auto_timestamp_cols = (b'H', b'Y', b'0', b'0', b'0')
sqlstate er_invalid_on_update = (b'H', b'Y', b'0', b'0', b'0')
sqlstate er_unsupported_ps = (b'H', b'Y', b'0', b'0', b'0')
sqlstate er_get_errmsg = (b'H', b'Y', b'0', b'0', b'0')
sqlstate er_get_temporary_errmsg = (b'H', b'Y', b'0', b'0', b'0')
sqlstate er_unknown_time_zone = (b'H', b'Y', b'0', b'0', b'0')
sqlstate er_warn_invalid_timestamp = (b'H', b'Y', b'0', b'0', b'0')
sqlstate er_invalid_character_string = (b'H', b'Y', b'0', b'0', b'0')
sqlstate er_warn_allowed_packet_overflowed = (b'H', b'Y', b'0', b'0', b'0')
sqlstate er_conflicting_declarations = (b'H', b'Y', b'0', b'0', b'0')
sqlstate er_sp_drop_failed = (b'H', b'Y', b'0', b'0', b'0')
sqlstate er_sp_store_failed = (b'H', b'Y', b'0', b'0', b'0')
sqlstate er_sp_wrong_no_of_fetch_args = (b'H', b'Y', b'0', b'0', b'0')
sqlstate er_sp_cant_alter = (b'H', b'Y', b'0', b'0', b'0')
sqlstate er_fparser_too_big_file = (b'H', b'Y', b'0', b'0', b'0')
sqlstate er_fparser_bad_header = (b'H', b'Y', b'0', b'0', b'0')
sqlstate er_fparser_eof_in_comment = (b'H', b'Y', b'0', b'0', b'0')
sqlstate er_fparser_error_in_parameter = (b'H', b'Y', b'0', b'0', b'0')
sqlstate er_fparser_eof_in_unknown_parameter = (b'H', b'Y', b'0', b'0', b'0')
sqlstate er_view_no_explain = (b'H', b'Y', b'0', b'0', b'0')
sqlstate er_frm_unknown_type = (b'H', b'Y', b'0', b'0', b'0')
sqlstate er_wrong_object = (b'H', b'Y', b'0', b'0', b'0')
sqlstate er_nonupdateable_column = (b'H', b'Y', b'0', b'0', b'0')
sqlstate er_view_select_derived = (b'H', b'Y', b'0', b'0', b'0')
sqlstate er_view_select_clause = (b'H', b'Y', b'0', b'0', b'0')
sqlstate er_view_select_variable = (b'H', b'Y', b'0', b'0', b'0')
sqlstate er_view_select_tmptable = (b'H', b'Y', b'0', b'0', b'0')
sqlstate er_view_wrong_list = (b'H', b'Y', b'0', b'0', b'0')
sqlstate er_warn_view_merge = (b'H', b'Y', b'0', b'0', b'0')
sqlstate er_warn_view_without_key = (b'H', b'Y', b'0', b'0', b'0')
sqlstate er_view_invalid = (b'H', b'Y', b'0', b'0', b'0')
sqlstate er_sp_no_drop_sp = (b'H', b'Y', b'0', b'0', b'0')
sqlstate er_sp_goto_in_hndlr = (b'H', b'Y', b'0', b'0', b'0')
sqlstate er_trg_already_exists = (b'H', b'Y', b'0', b'0', b'0')
sqlstate er_trg_does_not_exist = (b'H', b'Y', b'0', b'0', b'0')
sqlstate er_trg_on_view_or_temp_table = (b'H', b'Y', b'0', b'0', b'0')
sqlstate er_trg_cant_change_row = (b'H', b'Y', b'0', b'0', b'0')
sqlstate er_trg_no_such_row_in_trg = (b'H', b'Y', b'0', b'0', b'0')
sqlstate er_no_default_for_field = (b'H', b'Y', b'0', b'0', b'0')
sqlstate er_truncated_wrong_value_for_field = (b'H', b'Y', b'0', b'0', b'0')
sqlstate er_view_nonupd_check = (b'H', b'Y', b'0', b'0', b'0')
sqlstate er_view_check_failed = (b'H', b'Y', b'0', b'0', b'0')
sqlstate er_relay_log_fail = (b'H', b'Y', b'0', b'0', b'0')
sqlstate er_passwd_length = (b'H', b'Y', b'0', b'0', b'0')
sqlstate er_unknown_target_binlog = (b'H', b'Y', b'0', b'0', b'0')
sqlstate er_io_err_log_index_read = (b'H', b'Y', b'0', b'0', b'0')
sqlstate er_binlog_purge_prohibited = (b'H', b'Y', b'0', b'0', b'0')
sqlstate er_fseek_fail = (b'H', b'Y', b'0', b'0', b'0')
sqlstate er_binlog_purge_fatal_err = (b'H', b'Y', b'0', b'0', b'0')
sqlstate er_log_in_use = (b'H', b'Y', b'0', b'0', b'0')
sqlstate er_log_purge_unknown_err = (b'H', b'Y', b'0', b'0', b'0')
sqlstate er_relay_log_init = (b'H', b'Y', b'0', b'0', b'0')
sqlstate er_no_binary_logging = (b'H', b'Y', b'0', b'0', b'0')
sqlstate er_reserved_syntax = (b'H', b'Y', b'0', b'0', b'0')
sqlstate er_wsas_failed = (b'H', b'Y', b'0', b'0', b'0')
sqlstate er_diff_groups_proc = (b'H', b'Y', b'0', b'0', b'0')
sqlstate er_no_group_for_proc = (b'H', b'Y', b'0', b'0', b'0')
sqlstate er_order_with_proc = (b'H', b'Y', b'0', b'0', b'0')
sqlstate er_logging_prohibit_changing_of = (b'H', b'Y', b'0', b'0', b'0')
sqlstate er_no_file_mapping = (b'H', b'Y', b'0', b'0', b'0')
sqlstate er_wrong_magic = (b'H', b'Y', b'0', b'0', b'0')
sqlstate er_ps_many_param = (b'H', b'Y', b'0', b'0', b'0')
sqlstate er_key_part_0 = (b'H', b'Y', b'0', b'0', b'0')
sqlstate er_view_checksum = (b'H', b'Y', b'0', b'0', b'0')
sqlstate er_view_multiupdate = (b'H', b'Y', b'0', b'0', b'0')
sqlstate er_view_no_insert_field_list = (b'H', b'Y', b'0', b'0', b'0')
sqlstate er_view_delete_merge_view = (b'H', b'Y', b'0', b'0', b'0')
sqlstate er_cannot_user = (b'H', b'Y', b'0', b'0', b'0')
sqlstate er_proc_auto_grant_fail = (b'H', b'Y', b'0', b'0', b'0')
sqlstate er_proc_auto_revoke_fail = (b'H', b'Y', b'0', b'0', b'0')
sqlstate er_startup = (b'H', b'Y', b'0', b'0', b'0')
sqlstate er_load_from_fixed_size_rows_to_var = (b'H', b'Y', b'0', b'0', b'0')
sqlstate er_wrong_value_for_type = (b'H', b'Y', b'0', b'0', b'0')
sqlstate er_table_def_changed = (b'H', b'Y', b'0', b'0', b'0')
sqlstate er_failed_routine_break_binlog = (b'H', b'Y', b'0', b'0', b'0')
sqlstate er_binlog_unsafe_routine = (b'H', b'Y', b'0', b'0', b'0')
sqlstate er_binlog_create_routine_need_super = (b'H', b'Y', b'0', b'0', b'0')
sqlstate er_exec_stmt_with_open_cursor = (b'H', b'Y', b'0', b'0', b'0')
sqlstate er_stmt_has_no_open_cursor = (b'H', b'Y', b'0', b'0', b'0')
sqlstate er_commit_not_allowed_in_sf_or_trg = (b'H', b'Y', b'0', b'0', b'0')
sqlstate er_no_default_for_view_field = (b'H', b'Y', b'0', b'0', b'0')
sqlstate er_sp_no_recursion = (b'H', b'Y', b'0', b'0', b'0')
sqlstate er_wrong_lock_of_system_table = (b'H', b'Y', b'0', b'0', b'0')
sqlstate er_connect_to_foreign_data_source = (b'H', b'Y', b'0', b'0', b'0')
sqlstate er_query_on_foreign_data_source = (b'H', b'Y', b'0', b'0', b'0')
sqlstate er_foreign_data_source_doesnt_exist = (b'H', b'Y', b'0', b'0', b'0')
sqlstate er_foreign_data_string_invalid_cant_create = (b'H', b'Y', b'0', b'0', b'0')
sqlstate er_foreign_data_string_invalid = (b'H', b'Y', b'0', b'0', b'0')
sqlstate er_cant_create_federated_table = (b'H', b'Y', b'0', b'0', b'0')
sqlstate er_trg_in_wrong_schema = (b'H', b'Y', b'0', b'0', b'0')
sqlstate er_stack_overrun_need_more = (b'H', b'Y', b'0', b'0', b'0')
sqlstate er_warn_cant_drop_default_keycache = (b'H', b'Y', b'0', b'0', b'0')
sqlstate er_cant_update_used_table_in_sf_or_trg = (b'H', b'Y', b'0', b'0', b'0')
sqlstate er_view_prevent_update = (b'H', b'Y', b'0', b'0', b'0')
sqlstate er_ps_no_recursion = (b'H', b'Y', b'0', b'0', b'0')
sqlstate er_sp_cant_set_autocommit = (b'H', b'Y', b'0', b'0', b'0')
sqlstate er_malformed_definer = (b'H', b'Y', b'0', b'0', b'0')
sqlstate er_view_frm_no_user = (b'H', b'Y', b'0', b'0', b'0')
sqlstate er_view_other_user = (b'H', b'Y', b'0', b'0', b'0')
sqlstate er_no_such_user = (b'H', b'Y', b'0', b'0', b'0')
sqlstate er_forbid_schema_change = (b'H', b'Y', b'0', b'0', b'0')
sqlstate er_trg_no_definer = (b'H', b'Y', b'0', b'0', b'0')
sqlstate er_old_file_format = (b'H', b'Y', b'0', b'0', b'0')
sqlstate er_sp_recursion_limit = (b'H', b'Y', b'0', b'0', b'0')
sqlstate er_sp_proc_table_corrupt = (b'H', b'Y', b'0', b'0', b'0')
sqlstate er_table_needs_upgrade = (b'H', b'Y', b'0', b'0', b'0')
sqlstate er_view_recursive = (b'H', b'Y', b'0', b'0', b'0')
sqlstate er_table_cant_handle_spkeys = (b'H', b'Y', b'0', b'0', b'0')
sqlstate er_no_triggers_on_system_schema = (b'H', b'Y', b'0', b'0', b'0')
sqlstate er_removed_spaces = (b'H', b'Y', b'0', b'0', b'0')
sqlstate er_autoinc_read_failed = (b'H', b'Y', b'0', b'0', b'0')
sqlstate er_username = (b'H', b'Y', b'0', b'0', b'0')
sqlstate er_hostname = (b'H', b'Y', b'0', b'0', b'0')
sqlstate er_wrong_string_length = (b'H', b'Y', b'0', b'0', b'0')
sqlstate er_non_insertable_table = (b'H', b'Y', b'0', b'0', b'0')
sqlstate er_admin_wrong_mrg_table = (b'H', b'Y', b'0', b'0', b'0')
sqlstate er_too_high_level_of_nesting_for_select = (b'H', b'Y', b'0', b'0', b'0')
sqlstate er_name_becomes_empty = (b'H', b'Y', b'0', b'0', b'0')
sqlstate er_ambiguous_field_term = (b'H', b'Y', b'0', b'0', b'0')
sqlstate er_foreign_server_exists = (b'H', b'Y', b'0', b'0', b'0')
sqlstate er_foreign_server_doesnt_exist = (b'H', b'Y', b'0', b'0', b'0')
sqlstate er_illegal_ha_create_option = (b'H', b'Y', b'0', b'0', b'0')
sqlstate er_partition_requires_values_error = (b'H', b'Y', b'0', b'0', b'0')
sqlstate er_partition_wrong_values_error = (b'H', b'Y', b'0', b'0', b'0')
sqlstate er_partition_maxvalue_error = (b'H', b'Y', b'0', b'0', b'0')
sqlstate er_partition_subpartition_error = (b'H', b'Y', b'0', b'0', b'0')
sqlstate er_partition_subpart_mix_error = (b'H', b'Y', b'0', b'0', b'0')
sqlstate er_partition_wrong_no_part_error = (b'H', b'Y', b'0', b'0', b'0')
sqlstate er_partition_wrong_no_subpart_error = (b'H', b'Y', b'0', b'0', b'0')
sqlstate er_wrong_expr_in_partition_func_error = (b'H', b'Y', b'0', b'0', b'0')
sqlstate er_no_const_expr_in_range_or_list_error = (b'H', b'Y', b'0', b'0', b'0')
sqlstate er_field_not_found_part_error = (b'H', b'Y', b'0', b'0', b'0')
sqlstate er_list_of_fields_only_in_hash_error = (b'H', b'Y', b'0', b'0', b'0')
sqlstate er_inconsistent_partition_info_error = (b'H', b'Y', b'0', b'0', b'0')
sqlstate er_partition_func_not_allowed_error = (b'H', b'Y', b'0', b'0', b'0')
sqlstate er_partitions_must_be_defined_error = (b'H', b'Y', b'0', b'0', b'0')
sqlstate er_range_not_increasing_error = (b'H', b'Y', b'0', b'0', b'0')
sqlstate er_inconsistent_type_of_functions_error = (b'H', b'Y', b'0', b'0', b'0')
sqlstate er_multiple_def_const_in_list_part_error = (b'H', b'Y', b'0', b'0', b'0')
sqlstate er_partition_entry_error = (b'H', b'Y', b'0', b'0', b'0')
sqlstate er_mix_handler_error = (b'H', b'Y', b'0', b'0', b'0')
sqlstate er_partition_not_defined_error = (b'H', b'Y', b'0', b'0', b'0')
sqlstate er_too_many_partitions_error = (b'H', b'Y', b'0', b'0', b'0')
sqlstate er_subpartition_error = (b'H', b'Y', b'0', b'0', b'0')
sqlstate er_cant_create_handler_file = (b'H', b'Y', b'0', b'0', b'0')
sqlstate er_blob_field_in_part_func_error = (b'H', b'Y', b'0', b'0', b'0')
sqlstate er_unique_key_need_all_fields_in_pf = (b'H', b'Y', b'0', b'0', b'0')
sqlstate er_no_parts_error = (b'H', b'Y', b'0', b'0', b'0')
sqlstate er_partition_mgmt_on_nonpartitioned = (b'H', b'Y', b'0', b'0', b'0')
sqlstate er_foreign_key_on_partitioned = (b'H', b'Y', b'0', b'0', b'0')
sqlstate er_drop_partition_non_existent = (b'H', b'Y', b'0', b'0', b'0')
sqlstate er_drop_last_partition = (b'H', b'Y', b'0', b'0', b'0')
sqlstate er_coalesce_only_on_hash_partition = (b'H', b'Y', b'0', b'0', b'0')
sqlstate er_reorg_hash_only_on_same_n = (b'H', b'Y', b'0', b'0', b'0')
sqlstate er_reorg_no_param_error = (b'H', b'Y', b'0', b'0', b'0')
sqlstate er_only_on_range_list_partition = (b'H', b'Y', b'0', b'0', b'0')
sqlstate er_add_partition_subpart_error = (b'H', b'Y', b'0', b'0', b'0')
sqlstate er_add_partition_no_new_partition = (b'H', b'Y', b'0', b'0', b'0')
sqlstate er_coalesce_partition_no_partition = (b'H', b'Y', b'0', b'0', b'0')
sqlstate er_reorg_partition_not_exist = (b'H', b'Y', b'0', b'0', b'0')
sqlstate er_same_name_partition = (b'H', b'Y', b'0', b'0', b'0')
sqlstate er_no_binlog_error = (b'H', b'Y', b'0', b'0', b'0')
sqlstate er_consecutive_reorg_partitions = (b'H', b'Y', b'0', b'0', b'0')
sqlstate er_reorg_outside_range = (b'H', b'Y', b'0', b'0', b'0')
sqlstate er_partition_function_failure = (b'H', b'Y', b'0', b'0', b'0')
sqlstate er_part_state_error = (b'H', b'Y', b'0', b'0', b'0')
sqlstate er_limited_part_range = (b'H', b'Y', b'0', b'0', b'0')
sqlstate er_plugin_is_not_loaded = (b'H', b'Y', b'0', b'0', b'0')
sqlstate er_wrong_value = (b'H', b'Y', b'0', b'0', b'0')
sqlstate er_no_partition_for_given_value = (b'H', b'Y', b'0', b'0', b'0')
sqlstate er_filegroup_option_only_once = (b'H', b'Y', b'0', b'0', b'0')
sqlstate er_create_filegroup_failed = (b'H', b'Y', b'0', b'0', b'0')
sqlstate er_drop_filegroup_failed = (b'H', b'Y', b'0', b'0', b'0')
sqlstate er_tablespace_auto_extend_error = (b'H', b'Y', b'0', b'0', b'0')
sqlstate er_wrong_size_number = (b'H', b'Y', b'0', b'0', b'0')
sqlstate er_size_overflow_error = (b'H', b'Y', b'0', b'0', b'0')
sqlstate er_alter_filegroup_failed = (b'H', b'Y', b'0', b'0', b'0')
sqlstate er_binlog_row_logging_failed = (b'H', b'Y', b'0', b'0', b'0')
sqlstate er_binlog_row_wrong_table_def = (b'H', b'Y', b'0', b'0', b'0')
sqlstate er_binlog_row_rbr_to_sbr = (b'H', b'Y', b'0', b'0', b'0')
sqlstate er_event_already_exists = (b'H', b'Y', b'0', b'0', b'0')
sqlstate er_event_store_failed = (b'H', b'Y', b'0', b'0', b'0')
sqlstate er_event_does_not_exist = (b'H', b'Y', b'0', b'0', b'0')
sqlstate er_event_cant_alter = (b'H', b'Y', b'0', b'0', b'0')
sqlstate er_event_drop_failed = (b'H', b'Y', b'0', b'0', b'0')
sqlstate er_event_interval_not_positive_or_too_big = (b'H', b'Y', b'0', b'0', b'0')
sqlstate er_event_ends_before_starts = (b'H', b'Y', b'0', b'0', b'0')
sqlstate er_event_exec_time_in_the_past = (b'H', b'Y', b'0', b'0', b'0')
sqlstate er_event_open_table_failed = (b'H', b'Y', b'0', b'0', b'0')
sqlstate er_event_neither_m_expr_nor_m_at = (b'H', b'Y', b'0', b'0', b'0')
sqlstate er_col_count_doesnt_match_corrupted = (b'H', b'Y', b'0', b'0', b'0')
sqlstate er_cannot_load_from_table = (b'H', b'Y', b'0', b'0', b'0')
sqlstate er_event_cannot_delete = (b'H', b'Y', b'0', b'0', b'0')
sqlstate er_event_compile_error = (b'H', b'Y', b'0', b'0', b'0')
sqlstate er_event_same_name = (b'H', b'Y', b'0', b'0', b'0')
sqlstate er_event_data_too_long = (b'H', b'Y', b'0', b'0', b'0')
sqlstate er_drop_index_fk = (b'H', b'Y', b'0', b'0', b'0')
sqlstate er_warn_deprecated_syntax_with_ver = (b'H', b'Y', b'0', b'0', b'0')
sqlstate er_cant_write_lock_log_table = (b'H', b'Y', b'0', b'0', b'0')
sqlstate er_cant_lock_log_table = (b'H', b'Y', b'0', b'0', b'0')
sqlstate er_col_count_doesnt_match_please_update = (b'H', b'Y', b'0', b'0', b'0')
sqlstate er_temp_table_prevents_switch_out_of_rbr = (b'H', b'Y', b'0', b'0', b'0')
sqlstate er_stored_function_prevents_switch_binlog_format = (b'H', b'Y', b'0', b'0', b'0')
sqlstate er_ndb_cant_switch_binlog_format = (b'H', b'Y', b'0', b'0', b'0')
sqlstate er_partition_no_temporary = (b'H', b'Y', b'0', b'0', b'0')
sqlstate er_partition_const_domain_error = (b'H', b'Y', b'0', b'0', b'0')
sqlstate er_partition_function_is_not_allowed = (b'H', b'Y', b'0', b'0', b'0')
sqlstate er_ddl_log_error = (b'H', b'Y', b'0', b'0', b'0')
sqlstate er_null_in_values_less_than = (b'H', b'Y', b'0', b'0', b'0')
sqlstate er_wrong_partition_name = (b'H', b'Y', b'0', b'0', b'0')
sqlstate er_dup_entry_autoincrement_case = (b'H', b'Y', b'0', b'0', b'0')
sqlstate er_event_modify_queue_error = (b'H', b'Y', b'0', b'0', b'0')
sqlstate er_event_set_var_error = (b'H', b'Y', b'0', b'0', b'0')
sqlstate er_partition_merge_error = (b'H', b'Y', b'0', b'0', b'0')
sqlstate er_cant_activate_log = (b'H', b'Y', b'0', b'0', b'0')
sqlstate er_rbr_not_available = (b'H', b'Y', b'0', b'0', b'0')
sqlstate er_base64_decode_error = (b'H', b'Y', b'0', b'0', b'0')
sqlstate er_event_recursion_forbidden = (b'H', b'Y', b'0', b'0', b'0')
sqlstate er_events_db_error = (b'H', b'Y', b'0', b'0', b'0')
sqlstate er_only_integers_allowed = (b'H', b'Y', b'0', b'0', b'0')
sqlstate er_unsuported_log_engine = (b'H', b'Y', b'0', b'0', b'0')
sqlstate er_bad_log_statement = (b'H', b'Y', b'0', b'0', b'0')
sqlstate er_cant_rename_log_table = (b'H', b'Y', b'0', b'0', b'0')
sqlstate er_native_fct_name_collision = (b'H', b'Y', b'0', b'0', b'0')
sqlstate er_binlog_purge_emfile = (b'H', b'Y', b'0', b'0', b'0')
sqlstate er_event_cannot_create_in_the_past = (b'H', b'Y', b'0', b'0', b'0')
sqlstate er_event_cannot_alter_in_the_past = (b'H', b'Y', b'0', b'0', b'0')
sqlstate er_slave_incident = (b'H', b'Y', b'0', b'0', b'0')
sqlstate er_no_partition_for_given_value_silent = (b'H', b'Y', b'0', b'0', b'0')
sqlstate er_binlog_unsafe_statement = (b'H', b'Y', b'0', b'0', b'0')
sqlstate er_slave_fatal_error = (b'H', b'Y', b'0', b'0', b'0')
sqlstate er_slave_relay_log_read_failure = (b'H', b'Y', b'0', b'0', b'0')
sqlstate er_slave_relay_log_write_failure = (b'H', b'Y', b'0', b'0', b'0')
sqlstate er_slave_create_event_failure = (b'H', b'Y', b'0', b'0', b'0')
sqlstate er_slave_master_com_failure = (b'H', b'Y', b'0', b'0', b'0')
sqlstate er_binlog_logging_impossible = (b'H', b'Y', b'0', b'0', b'0')
sqlstate er_view_no_creation_ctx = (b'H', b'Y', b'0', b'0', b'0')
sqlstate er_view_invalid_creation_ctx = (b'H', b'Y', b'0', b'0', b'0')
sqlstate er_sr_invalid_creation_ctx = (b'H', b'Y', b'0', b'0', b'0')
sqlstate er_trg_corrupted_file = (b'H', b'Y', b'0', b'0', b'0')
sqlstate er_trg_no_creation_ctx = (b'H', b'Y', b'0', b'0', b'0')
sqlstate er_trg_invalid_creation_ctx = (b'H', b'Y', b'0', b'0', b'0')
sqlstate er_event_invalid_creation_ctx = (b'H', b'Y', b'0', b'0', b'0')
sqlstate er_trg_cant_open_table = (b'H', b'Y', b'0', b'0', b'0')
sqlstate er_cant_create_sroutine = (b'H', b'Y', b'0', b'0', b'0')
sqlstate er_unused_11 = (b'H', b'Y', b'0', b'0', b'0')
sqlstate er_no_format_description_event_before_binlog_statement = (b'H', b'Y', b'0', b'0', b'0')
sqlstate er_slave_corrupt_event = (b'H', b'Y', b'0', b'0', b'0')
sqlstate er_load_data_invalid_column = (b'H', b'Y', b'0', b'0', b'0')
sqlstate er_log_purge_no_file = (b'H', b'Y', b'0', b'0', b'0')
sqlstate er_need_reprepare = (b'H', b'Y', b'0', b'0', b'0')
sqlstate er_delayed_not_supported = (b'H', b'Y', b'0', b'0', b'0')
sqlstate warn_no_master_inf = (b'H', b'Y', b'0', b'0', b'0')
sqlstate warn_option_ignored = (b'H', b'Y', b'0', b'0', b'0')
sqlstate warn_plugin_delete_builtin = (b'H', b'Y', b'0', b'0', b'0')
sqlstate warn_plugin_busy = (b'H', b'Y', b'0', b'0', b'0')
sqlstate er_variable_is_readonly = (b'H', b'Y', b'0', b'0', b'0')
sqlstate er_warn_engine_transaction_rollback = (b'H', b'Y', b'0', b'0', b'0')
sqlstate er_slave_heartbeat_failure = (b'H', b'Y', b'0', b'0', b'0')
sqlstate er_slave_heartbeat_value_out_of_range = (b'H', b'Y', b'0', b'0', b'0')
sqlstate er_ndb_replication_schema_error = (b'H', b'Y', b'0', b'0', b'0')
sqlstate er_conflict_fn_parse_error = (b'H', b'Y', b'0', b'0', b'0')
sqlstate er_exceptions_write_error = (b'H', b'Y', b'0', b'0', b'0')
sqlstate er_too_long_table_comment = (b'H', b'Y', b'0', b'0', b'0')
sqlstate er_too_long_field_comment = (b'H', b'Y', b'0', b'0', b'0')
sqlstate er_database_name = (b'H', b'Y', b'0', b'0', b'0')
sqlstate er_table_name = (b'H', b'Y', b'0', b'0', b'0')
sqlstate er_partition_name = (b'H', b'Y', b'0', b'0', b'0')
sqlstate er_subpartition_name = (b'H', b'Y', b'0', b'0', b'0')
sqlstate er_temporary_name = (b'H', b'Y', b'0', b'0', b'0')
sqlstate er_renamed_name = (b'H', b'Y', b'0', b'0', b'0')
sqlstate er_too_many_concurrent_trxs = (b'H', b'Y', b'0', b'0', b'0')
sqlstate warn_non_ascii_separator_not_implemented = (b'H', b'Y', b'0', b'0', b'0')
sqlstate er_debug_sync_timeout = (b'H', b'Y', b'0', b'0', b'0')
sqlstate er_debug_sync_hit_limit = (b'H', b'Y', b'0', b'0', b'0')
sqlstate er_signal_exception = (b'H', b'Y', b'0', b'0', b'0')
sqlstate er_signal_bad_condition_type = (b'H', b'Y', b'0', b'0', b'0')
sqlstate warn_cond_item_truncated = (b'H', b'Y', b'0', b'0', b'0')
sqlstate er_cond_item_too_long = (b'H', b'Y', b'0', b'0', b'0')
sqlstate er_unknown_locale = (b'H', b'Y', b'0', b'0', b'0')
sqlstate er_slave_ignore_server_ids = (b'H', b'Y', b'0', b'0', b'0')
sqlstate er_query_cache_disabled = (b'H', b'Y', b'0', b'0', b'0')
sqlstate er_same_name_partition_field = (b'H', b'Y', b'0', b'0', b'0')
sqlstate er_partition_column_list_error = (b'H', b'Y', b'0', b'0', b'0')
sqlstate er_wrong_type_column_value_error = (b'H', b'Y', b'0', b'0', b'0')
sqlstate er_too_many_partition_func_fields_error = (b'H', b'Y', b'0', b'0', b'0')
sqlstate er_maxvalue_in_values_in = (b'H', b'Y', b'0', b'0', b'0')
sqlstate er_too_many_values_error = (b'H', b'Y', b'0', b'0', b'0')
sqlstate er_row_single_partition_field_error = (b'H', b'Y', b'0', b'0', b'0')
sqlstate er_field_type_not_allowed_as_partition_field = (b'H', b'Y', b'0', b'0', b'0')
sqlstate er_partition_fields_too_long = (b'H', b'Y', b'0', b'0', b'0')
sqlstate er_binlog_row_engine_and_stmt_engine = (b'H', b'Y', b'0', b'0', b'0')
sqlstate er_binlog_row_mode_and_stmt_engine = (b'H', b'Y', b'0', b'0', b'0')
sqlstate er_binlog_unsafe_and_stmt_engine = (b'H', b'Y', b'0', b'0', b'0')
sqlstate er_binlog_row_injection_and_stmt_engine = (b'H', b'Y', b'0', b'0', b'0')
sqlstate er_binlog_stmt_mode_and_row_engine = (b'H', b'Y', b'0', b'0', b'0')
sqlstate er_binlog_row_injection_and_stmt_mode = (b'H', b'Y', b'0', b'0', b'0')
sqlstate er_binlog_multiple_engines_and_self_logging_engine = (b'H', b'Y', b'0', b'0', b'0')
sqlstate er_binlog_unsafe_limit = (b'H', b'Y', b'0', b'0', b'0')
sqlstate er_binlog_unsafe_insert_delayed = (b'H', b'Y', b'0', b'0', b'0')
sqlstate er_binlog_unsafe_system_table = (b'H', b'Y', b'0', b'0', b'0')
sqlstate er_binlog_unsafe_autoinc_columns = (b'H', b'Y', b'0', b'0', b'0')
sqlstate er_binlog_unsafe_udf = (b'H', b'Y', b'0', b'0', b'0')
sqlstate er_binlog_unsafe_system_variable = (b'H', b'Y', b'0', b'0', b'0')
sqlstate er_binlog_unsafe_system_function = (b'H', b'Y', b'0', b'0', b'0')
sqlstate er_binlog_unsafe_nontrans_after_trans = (b'H', b'Y', b'0', b'0', b'0')
sqlstate er_message_and_statement = (b'H', b'Y', b'0', b'0', b'0')
sqlstate er_slave_conversion_failed = (b'H', b'Y', b'0', b'0', b'0')
sqlstate er_slave_cant_create_conversion = (b'H', b'Y', b'0', b'0', b'0')
sqlstate er_inside_transaction_prevents_switch_binlog_format = (b'H', b'Y', b'0', b'0', b'0')
sqlstate er_path_length = (b'H', b'Y', b'0', b'0', b'0')
sqlstate er_warn_deprecated_syntax_no_replacement = (b'H', b'Y', b'0', b'0', b'0')
sqlstate er_wrong_native_table_structure = (b'H', b'Y', b'0', b'0', b'0')
sqlstate er_wrong_perfschema_usage = (b'H', b'Y', b'0', b'0', b'0')
sqlstate er_warn_i_s_skipped_table = (b'H', b'Y', b'0', b'0', b'0')
sqlstate er_inside_transaction_prevents_switch_binlog_direct = (b'H', b'Y', b'0', b'0', b'0')
sqlstate er_stored_function_prevents_switch_binlog_direct = (b'H', b'Y', b'0', b'0', b'0')
sqlstate er_too_long_index_comment = (b'H', b'Y', b'0', b'0', b'0')
sqlstate er_lock_aborted = (b'H', b'Y', b'0', b'0', b'0')
sqlstate er_wrong_spvar_type_in_limit = (b'H', b'Y', b'0', b'0', b'0')
sqlstate er_binlog_unsafe_multiple_engines_and_self_logging_engine = (b'H', b'Y', b'0', b'0', b'0')
sqlstate er_binlog_unsafe_mixed_statement = (b'H', b'Y', b'0', b'0', b'0')
sqlstate er_inside_transaction_prevents_switch_sql_log_bin = (b'H', b'Y', b'0', b'0', b'0')
sqlstate er_stored_function_prevents_switch_sql_log_bin = (b'H', b'Y', b'0', b'0', b'0')
sqlstate er_failed_read_from_par_file = (b'H', b'Y', b'0', b'0', b'0')
sqlstate er_values_is_not_int_type_error = (b'H', b'Y', b'0', b'0', b'0')
sqlstate er_set_password_auth_plugin = (b'H', b'Y', b'0', b'0', b'0')
sqlstate er_grant_plugin_user_exists = (b'H', b'Y', b'0', b'0', b'0')
sqlstate er_plugin_is_permanent = (b'H', b'Y', b'0', b'0', b'0')
sqlstate er_slave_heartbeat_value_out_of_range_min = (b'H', b'Y', b'0', b'0', b'0')
sqlstate er_slave_heartbeat_value_out_of_range_max = (b'H', b'Y', b'0', b'0', b'0')
sqlstate er_stmt_cache_full = (b'H', b'Y', b'0', b'0', b'0')
sqlstate er_multi_update_key_conflict = (b'H', b'Y', b'0', b'0', b'0')
sqlstate er_table_needs_rebuild = (b'H', b'Y', b'0', b'0', b'0')
sqlstate warn_option_below_limit = (b'H', b'Y', b'0', b'0', b'0')
sqlstate er_index_column_too_long = (b'H', b'Y', b'0', b'0', b'0')
sqlstate er_error_in_trigger_body = (b'H', b'Y', b'0', b'0', b'0')
sqlstate er_error_in_unknown_trigger_body = (b'H', b'Y', b'0', b'0', b'0')
sqlstate er_index_corrupt = (b'H', b'Y', b'0', b'0', b'0')
sqlstate er_undo_record_too_big = (b'H', b'Y', b'0', b'0', b'0')
sqlstate er_binlog_unsafe_insert_ignore_select = (b'H', b'Y', b'0', b'0', b'0')
sqlstate er_binlog_unsafe_insert_select_update = (b'H', b'Y', b'0', b'0', b'0')
sqlstate er_binlog_unsafe_replace_select = (b'H', b'Y', b'0', b'0', b'0')
sqlstate er_binlog_unsafe_create_ignore_select = (b'H', b'Y', b'0', b'0', b'0')
sqlstate er_binlog_unsafe_create_replace_select = (b'H', b'Y', b'0', b'0', b'0')
sqlstate er_binlog_unsafe_update_ignore = (b'H', b'Y', b'0', b'0', b'0')
sqlstate er_plugin_no_uninstall = (b'H', b'Y', b'0', b'0', b'0')
sqlstate er_plugin_no_install = (b'H', b'Y', b'0', b'0', b'0')
sqlstate er_binlog_unsafe_write_autoinc_select = (b'H', b'Y', b'0', b'0', b'0')
sqlstate er_binlog_unsafe_create_select_autoinc = (b'H', b'Y', b'0', b'0', b'0')
sqlstate er_binlog_unsafe_insert_two_keys = (b'H', b'Y', b'0', b'0', b'0')
sqlstate er_table_in_fk_check = (b'H', b'Y', b'0', b'0', b'0')
sqlstate er_unsupported_engine = (b'H', b'Y', b'0', b'0', b'0')
sqlstate er_binlog_unsafe_autoinc_not_first = (b'H', b'Y', b'0', b'0', b'0')
sqlstate er_cannot_load_from_table_v2 = (b'H', b'Y', b'0', b'0', b'0')
sqlstate er_master_delay_value_out_of_range = (b'H', b'Y', b'0', b'0', b'0')
sqlstate er_only_fd_and_rbr_events_allowed_in_binlog_statement = (b'H', b'Y', b'0', b'0', b'0')
sqlstate er_partition_exchange_different_option = (b'H', b'Y', b'0', b'0', b'0')
sqlstate er_partition_exchange_part_table = (b'H', b'Y', b'0', b'0', b'0')
sqlstate er_partition_exchange_temp_table = (b'H', b'Y', b'0', b'0', b'0')
sqlstate er_partition_instead_of_subpartition = (b'H', b'Y', b'0', b'0', b'0')
sqlstate er_unknown_partition = (b'H', b'Y', b'0', b'0', b'0')
sqlstate er_tables_different_metadata = (b'H', b'Y', b'0', b'0', b'0')
sqlstate er_row_does_not_match_partition = (b'H', b'Y', b'0', b'0', b'0')
sqlstate er_binlog_cache_size_greater_than_max = (b'H', b'Y', b'0', b'0', b'0')
sqlstate er_warn_index_not_applicable = (b'H', b'Y', b'0', b'0', b'0')
sqlstate er_partition_exchange_foreign_key = (b'H', b'Y', b'0', b'0', b'0')
sqlstate er_no_such_key_value = (b'H', b'Y', b'0', b'0', b'0')
sqlstate er_rpl_info_data_too_long = (b'H', b'Y', b'0', b'0', b'0')
sqlstate er_network_read_event_checksum_failure = (b'H', b'Y', b'0', b'0', b'0')
sqlstate er_binlog_read_event_checksum_failure = (b'H', b'Y', b'0', b'0', b'0')
sqlstate er_binlog_stmt_cache_size_greater_than_max = (b'H', b'Y', b'0', b'0', b'0')
sqlstate er_cant_update_table_in_create_table_select = (b'H', b'Y', b'0', b'0', b'0')
sqlstate er_partition_clause_on_nonpartitioned = (b'H', b'Y', b'0', b'0', b'0')
sqlstate er_row_does_not_match_given_partition_set = (b'H', b'Y', b'0', b'0', b'0')
sqlstate er_no_such_partition_unused = (b'H', b'Y', b'0', b'0', b'0')
sqlstate er_change_rpl_info_repository_failure = (b'H', b'Y', b'0', b'0', b'0')
sqlstate er_warning_not_complete_rollback_with_created_temp_table = (b'H', b'Y', b'0', b'0', b'0')
sqlstate er_warning_not_complete_rollback_with_dropped_temp_table = (b'H', b'Y', b'0', b'0', b'0')
sqlstate er_mts_feature_is_not_supported = (b'H', b'Y', b'0', b'0', b'0')
sqlstate er_mts_updated_dbs_greater_max = (b'H', b'Y', b'0', b'0', b'0')
sqlstate er_mts_cant_parallel = (b'H', b'Y', b'0', b'0', b'0')
sqlstate er_mts_inconsistent_data = (b'H', b'Y', b'0', b'0', b'0')
sqlstate er_fulltext_not_supported_with_partitioning = (b'H', b'Y', b'0', b'0', b'0')
sqlstate er_insecure_plain_text = (b'H', b'Y', b'0', b'0', b'0')
sqlstate er_insecure_change_master = (b'H', b'Y', b'0', b'0', b'0')
sqlstate er_sqlthread_with_secure_slave = (b'H', b'Y', b'0', b'0', b'0')
sqlstate er_table_has_no_ft = (b'H', b'Y', b'0', b'0', b'0')
sqlstate er_variable_not_settable_in_sf_or_trigger = (b'H', b'Y', b'0', b'0', b'0')
sqlstate er_variable_not_settable_in_transaction = (b'H', b'Y', b'0', b'0', b'0')
sqlstate er_gtid_next_is_not_in_gtid_next_list = (b'H', b'Y', b'0', b'0', b'0')
sqlstate er_cant_change_gtid_next_in_transaction_when_gtid_next_list_is_null =
    (b'H', b'Y', b'0', b'0', b'0')
sqlstate er_set_statement_cannot_invoke_function = (b'H', b'Y', b'0', b'0', b'0')
sqlstate er_gtid_next_cant_be_automatic_if_gtid_next_list_is_non_null =
    (b'H', b'Y', b'0', b'0', b'0')
sqlstate er_skipping_logged_transaction = (b'H', b'Y', b'0', b'0', b'0')
sqlstate er_malformed_gtid_set_specification = (b'H', b'Y', b'0', b'0', b'0')
sqlstate er_malformed_gtid_set_encoding = (b'H', b'Y', b'0', b'0', b'0')
sqlstate er_malformed_gtid_specification = (b'H', b'Y', b'0', b'0', b'0')
sqlstate er_gno_exhausted = (b'H', b'Y', b'0', b'0', b'0')
sqlstate er_bad_slave_auto_position = (b'H', b'Y', b'0', b'0', b'0')
sqlstate er_auto_position_requires_gtid_mode_on = (b'H', b'Y', b'0', b'0', b'0')
sqlstate er_cant_do_implicit_commit_in_trx_when_gtid_next_is_set = (b'H', b'Y', b'0', b'0', b'0')
sqlstate er_gtid_mode_2_or_3_requires_disable_gtid_unsafe_statements_on =
    (b'H', b'Y', b'0', b'0', b'0')
sqlstate er_gtid_mode_requires_binlog = (b'H', b'Y', b'0', b'0', b'0')
sqlstate er_cant_set_gtid_next_to_gtid_when_gtid_mode_is_off = (b'H', b'Y', b'0', b'0', b'0')
sqlstate er_cant_set_gtid_next_to_anonymous_when_gtid_mode_is_on = (b'H', b'Y', b'0', b'0', b'0')
sqlstate er_cant_set_gtid_next_list_to_non_null_when_gtid_mode_is_off =
    (b'H', b'Y', b'0', b'0', b'0')
sqlstate er_found_gtid_event_when_gtid_mode_is_off = (b'H', b'Y', b'0', b'0', b'0')
sqlstate er_gtid_unsafe_non_transactional_table = (b'H', b'Y', b'0', b'0', b'0')
sqlstate er_gtid_unsafe_create_select = (b'H', b'Y', b'0', b'0', b'0')
sqlstate er_gtid_unsafe_create_drop_temporary_table_in_transaction = (b'H', b'Y', b'0', b'0', b'0')
sqlstate er_gtid_mode_can_only_change_one_step_at_a_time = (b'H', b'Y', b'0', b'0', b'0')
sqlstate er_master_has_purged_required_gtids = (b'H', b'Y', b'0', b'0', b'0')
sqlstate er_cant_set_gtid_next_when_owning_gtid = (b'H', b'Y', b'0', b'0', b'0')
sqlstate er_unknown_explain_format = (b'H', b'Y', b'0', b'0', b'0')
sqlstate er_too_long_table_partition_comment = (b'H', b'Y', b'0', b'0', b'0')
sqlstate er_slave_configuration = (b'H', b'Y', b'0', b'0', b'0')
sqlstate er_innodb_ft_limit = (b'H', b'Y', b'0', b'0', b'0')
sqlstate er_innodb_no_ft_temp_table = (b'H', b'Y', b'0', b'0', b'0')
sqlstate er_innodb_ft_wrong_docid_column = (b'H', b'Y', b'0', b'0', b'0')
sqlstate er_innodb_ft_wrong_docid_index = (b'H', b'Y', b'0', b'0', b'0')
sqlstate er_innodb_online_log_too_big = (b'H', b'Y', b'0', b'0', b'0')
sqlstate er_unknown_alter_algorithm = (b'H', b'Y', b'0', b'0', b'0')
sqlstate er_unknown_alter_lock = (b'H', b'Y', b'0', b'0', b'0')
sqlstate er_mts_change_master_cant_run_with_gaps = (b'H', b'Y', b'0', b'0', b'0')
sqlstate er_mts_recovery_failure = (b'H', b'Y', b'0', b'0', b'0')
sqlstate er_mts_reset_workers = (b'H', b'Y', b'0', b'0', b'0')
sqlstate er_col_count_doesnt_match_corrupted_v2 = (b'H', b'Y', b'0', b'0', b'0')
sqlstate er_slave_silent_retry_transaction = (b'H', b'Y', b'0', b'0', b'0')
sqlstate er_discard_fk_checks_running = (b'H', b'Y', b'0', b'0', b'0')
sqlstate er_table_schema_mismatch = (b'H', b'Y', b'0', b'0', b'0')
sqlstate er_table_in_system_tablespace = (b'H', b'Y', b'0', b'0', b'0')
sqlstate er_io_read_error = (b'H', b'Y', b'0', b'0', b'0')
sqlstate er_io_write_error = (b'H', b'Y', b'0', b'0', b'0')
sqlstate er_tablespace_missing = (b'H', b'Y', b'0', b'0', b'0')
sqlstate er_tablespace_exists = (b'H', b'Y', b'0', b'0', b'0')
sqlstate er_tablespace_discarded = (b'H', b'Y', b'0', b'0', b'0')
sqlstate er_internal_error = (b'H', b'Y', b'0', b'0', b'0')
sqlstate er_innodb_import_error = (b'H', b'Y', b'0', b'0', b'0')
sqlstate er_innodb_index_corrupt = (b'H', b'Y', b'0', b'0', b'0')
sqlstate er_invalid_year_column_length = (b'H', b'Y', b'0', b'0', b'0')
sqlstate er_not_valid_password = (b'H', b'Y', b'0', b'0', b'0')
sqlstate er_must_change_password = (b'H', b'Y', b'0', b'0', b'0')
sqlstate er_fk_no_index_child = (b'H', b'Y', b'0', b'0', b'0')
sqlstate er_fk_no_index_parent = (b'H', b'Y', b'0', b'0', b'0')
sqlstate er_fk_fail_add_system = (b'H', b'Y', b'0', b'0', b'0')
sqlstate er_fk_cannot_open_parent = (b'H', b'Y', b'0', b'0', b'0')
sqlstate er_fk_incorrect_option = (b'H', b'Y', b'0', b'0', b'0')
sqlstate er_fk_dup_name = (b'H', b'Y', b'0', b'0', b'0')
sqlstate er_password_format = (b'H', b'Y', b'0', b'0', b'0')
sqlstate er_fk_column_cannot_drop = (b'H', b'Y', b'0', b'0', b'0')
sqlstate er_fk_column_cannot_drop_child = (b'H', b'Y', b'0', b'0', b'0')
sqlstate er_fk_column_not_null = (b'H', b'Y', b'0', b'0', b'0')
sqlstate er_dup_index = (b'H', b'Y', b'0', b'0', b'0')
sqlstate er_fk_column_cannot_change = (b'H', b'Y', b'0', b'0', b'0')
sqlstate er_fk_column_cannot_change_child = (b'H', b'Y', b'0', b'0', b'0')
sqlstate er_fk_cannot_delete_parent = (b'H', b'Y', b'0', b'0', b'0')
sqlstate er_malformed_packet = (b'H', b'Y', b'0', b'0', b'0')
sqlstate er_read_only_mode = (b'H', b'Y', b'0', b'0', b'0')
sqlstate er_gtid_next_type_undefined_group = (b'H', b'Y', b'0', b'0', b'0')
sqlstate er_variable_not_settable_in_sp = (b'H', b'Y', b'0', b'0', b'0')
sqlstate er_cant_set_gtid_purged_when_gtid_mode_is_off = (b'H', b'Y', b'0', b'0', b'0')
sqlstate er_cant_set_gtid_purged_when_gtid_executed_is_not_empty = (b'H', b'Y', b'0', b'0', b'0')
sqlstate er_cant_set_gtid_purged_when_owned_gtids_is_not_empty = (b'H', b'Y', b'0', b'0', b'0')
sqlstate er_gtid_purged_was_changed = (b'H', b'Y', b'0', b'0', b'0')
sqlstate er_gtid_executed_was_changed = (b'H', b'Y', b'0', b'0', b'0')
sqlstate er_binlog_stmt_mode_and_no_repl_tables = (b'H', b'Y', b'0', b'0', b'0')
sqlstate er_alter_operation_not_supported_reason_copy = (b'H', b'Y', b'0', b'0', b'0')
sqlstate er_alter_operation_not_supported_reason_partition = (b'H', b'Y', b'0', b'0', b'0')
sqlstate er_alter_operation_not_supported_reason_fk_rename = (b'H', b'Y', b'0', b'0', b'0')
sqlstate er_alter_operation_not_supported_reason_column_type = (b'H', b'Y', b'0', b'0', b'0')
sqlstate er_alter_operation_not_supported_reason_fk_check = (b'H', b'Y', b'0', b'0', b'0')
sqlstate er_alter_operation_not_supported_reason_ignore = (b'H', b'Y', b'0', b'0', b'0')
sqlstate er_alter_operation_not_supported_reason_nopk = (b'H', b'Y', b'0', b'0', b'0')
sqlstate er_alter_operation_not_supported_reason_autoinc = (b'H', b'Y', b'0', b'0', b'0')
sqlstate er_alter_operation_not_supported_reason_hidden_fts = (b'H', b'Y', b'0', b'0', b'0')
sqlstate er_alter_operation_not_supported_reason_change_fts = (b'H', b'Y', b'0', b'0', b'0')
sqlstate er_alter_operation_not_supported_reason_fts = (b'H', b'Y', b'0', b'0', b'0')
sqlstate er_sql_slave_skip_counter_not_settable_in_gtid_mode = (b'H', b'Y', b'0', b'0', b'0')
sqlstate er_ident_causes_too_long_path = (b'H', b'Y', b'0', b'0', b'0')
sqlstate er_alter_operation_not_supported_reason_not_null = (b'H', b'Y', b'0', b'0', b'0')
sqlstate er_must_change_password_login = (b'H', b'Y', b'0', b'0', b'0')
sqlstate er_row_in_wrong_partition = (b'H', b'Y', b'0', b'0', b'0')
sqlstate er_mts_event_bigger_pending_jobs_size_max = (b'H', b'Y', b'0', b'0', b'0')
sqlstate er_innodb_no_ft_uses_parser = (b'H', b'Y', b'0', b'0', b'0')
sqlstate er_binlog_logical_corruption = (b'H', b'Y', b'0', b'0', b'0')
sqlstate er_warn_purge_log_in_use = (b'H', b'Y', b'0', b'0', b'0')
sqlstate er_warn_purge_log_is_active = (b'H', b'Y', b'0', b'0', b'0')
sqlstate er_auto_increment_conflict = (b'H', b'Y', b'0', b'0', b'0')
sqlstate warn_on_blockhole_in_rbr = (b'H', b'Y', b'0', b'0', b'0')
sqlstate er_slave_mi_init_repository = (b'H', b'Y', b'0', b'0', b'0')
sqlstate er_slave_rli_init_repository = (b'H', b'Y', b'0', b'0', b'0')
sqlstate er_innodb_read_only = (b'H', b'Y', b'0', b'0', b'0')
sqlstate er_stop_slave_sql_thread_timeout = (b'H', b'Y', b'0', b'0', b'0')
sqlstate er_stop_slave_io_thread_timeout = (b'H', b'Y', b'0', b'0', b'0')
sqlstate er_table_corrupt = (b'H', b'Y', b'0', b'0', b'0')
sqlstate er_temp_file_write_failure = (b'H', b'Y', b'0', b'0', b'0')
sqlstate er_innodb_ft_aux_not_hex_id = (b'H', b'Y', b'0', b'0', b'0')
sqlstate er_old_temporals_upgraded = (b'H', b'Y', b'0', b'0', b'0')
sqlstate er_innodb_forced_recovery = (b'H', b'Y', b'0', b'0', b'0')
sqlstate er_aes_invalid_iv = (b'H', b'Y', b'0', b'0', b'0')
sqlstate er_plugin_cannot_be_uninstalled = (b'H', b'Y', b'0', b'0', b'0')
sqlstate er_gtid_unsafe_binlog_splittable_statement_and_gtid_group = (b'H', b'Y', b'0', b'0', b'0')
sqlstate er_slave_has_more_gtids_than_master = (b'H', b'Y', b'0', b'0', b'0')
sqlstate er_xaer_nota = (b'X', b'A', b'E', b'0', b'4')
sqlstate er_xa_rbrollback = (b'X', b'A', b'1', b'0', b'0')
sqlstate er_data_too_long = (b'2', b'2', b'0', b'0', b'1')
sqlstate er_lock_deadlock = (b'4', b'0', b'0', b'0', b'1')
sqlstate er_wrong_number_of_columns_in_select = (b'2', b'1', b'0', b'0', b'0')
sqlstate er_operand_columns = (b'2', b'1', b'0', b'0', b'0')
sqlstate er_subquery_no_1_row = (b'2', b'1', b'0', b'0', b'0')
