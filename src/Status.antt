-- ===== src/Status.antt =====
-- ftp/status.go: the reply codes of the protocol.
use s3ftpgateway.Base.{ℕ}

abbrev pub status_initiating : ℕ
status_initiating = 100

abbrev pub status_restart_marker : ℕ
status_restart_marker = 110

abbrev pub status_ready_minute : ℕ
status_ready_minute = 120

abbrev pub status_already_open : ℕ
status_already_open = 125

abbrev pub status_about_to_send : ℕ
status_about_to_send = 150

abbrev pub status_command_ok : ℕ
status_command_ok = 200

abbrev pub status_command_not_implemented : ℕ
status_command_not_implemented = 202

abbrev pub status_system : ℕ
status_system = 211

abbrev pub status_directory : ℕ
status_directory = 212

abbrev pub status_file : ℕ
status_file = 213

abbrev pub status_help : ℕ
status_help = 214

abbrev pub status_name : ℕ
status_name = 215

abbrev pub status_ready : ℕ
status_ready = 220

abbrev pub status_closing : ℕ
status_closing = 221

abbrev pub status_data_connection_open : ℕ
status_data_connection_open = 225

abbrev pub status_closing_data_connection : ℕ
status_closing_data_connection = 226

abbrev pub status_passive_mode : ℕ
status_passive_mode = 227

abbrev pub status_extended_passive_mode : ℕ
status_extended_passive_mode = 229

abbrev pub status_logged_in : ℕ
status_logged_in = 230

abbrev pub status_requested_file_action_ok : ℕ
status_requested_file_action_ok = 250

abbrev pub status_path_created : ℕ
status_path_created = 257

abbrev pub status_user_ok : ℕ
status_user_ok = 331

abbrev pub status_login_need_account : ℕ
status_login_need_account = 332

abbrev pub status_request_file_pending : ℕ
status_request_file_pending = 350

abbrev pub status_not_available : ℕ
status_not_available = 421

abbrev pub status_can_not_open_data_connection : ℕ
status_can_not_open_data_connection = 425

abbrev pub status_transfert_aborted : ℕ
status_transfert_aborted = 426

abbrev pub status_invalid_credentials : ℕ
status_invalid_credentials = 430

abbrev pub status_host_unavailable : ℕ
status_host_unavailable = 434

abbrev pub status_file_action_ignored : ℕ
status_file_action_ignored = 450

abbrev pub status_action_aborted : ℕ
status_action_aborted = 451

abbrev pub status_insufficient_storage_space : ℕ
status_insufficient_storage_space = 452

abbrev pub status_bad_command : ℕ
status_bad_command = 500

abbrev pub status_bad_arguments : ℕ
status_bad_arguments = 501

abbrev pub status_not_implemented : ℕ
status_not_implemented = 502

abbrev pub status_bad_sequence : ℕ
status_bad_sequence = 503

abbrev pub status_not_implemented_parameter : ℕ
status_not_implemented_parameter = 504

abbrev pub status_directory_already_exists : ℕ
status_directory_already_exists = 521

abbrev pub status_not_logged_in : ℕ
status_not_logged_in = 530

abbrev pub status_stor_need_account : ℕ
status_stor_need_account = 532

abbrev pub status_file_unavailable : ℕ
status_file_unavailable = 550

abbrev pub status_page_type_unknown : ℕ
status_page_type_unknown = 551

abbrev pub status_exceeded_storage : ℕ
status_exceeded_storage = 552

abbrev pub status_bad_file_name : ℕ
status_bad_file_name = 553

abbrev pub status_logged_in_secured : ℕ
status_logged_in_secured = 232

abbrev pub status_security_data_exchange_complete : ℕ
status_security_data_exchange_complete = 234

abbrev pub status_security_data_exchange_success : ℕ
status_security_data_exchange_success = 235

abbrev pub status_security_mechanism_ok : ℕ
status_security_mechanism_ok = 334

abbrev pub status_security_data_acceptable : ℕ
status_security_data_acceptable = 335

abbrev pub status_user_ok_need_challenge : ℕ
status_user_ok_need_challenge = 336

abbrev pub status_need_some_unavailable_resource : ℕ
status_need_some_unavailable_resource = 431

abbrev pub status_command_protection_level_denied : ℕ
status_command_protection_level_denied = 533

abbrev pub status_request_denied : ℕ
status_request_denied = 534

abbrev pub status_failed_security_check : ℕ
status_failed_security_check = 535

abbrev pub status_prot_level_not_supported : ℕ
status_prot_level_not_supported = 536

abbrev pub status_command_protection_level_not_supported : ℕ
status_command_protection_level_not_supported = 537

abbrev pub status_safe_reply : ℕ
status_safe_reply = 631

abbrev pub status_private_reply : ℕ
status_private_reply = 632

abbrev pub status_confidential_reply : ℕ
status_confidential_reply = 633

abbrev pub status_network_proto_not_supported : ℕ
status_network_proto_not_supported = 522
