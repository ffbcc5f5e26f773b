-- ===== src/Messages/Enums/Field.antt =====
-- `Field` of common/fix_msg.py.
use auto_test_poc.Base.{ℕ, ◌≡◌, refl, List, [], ◌∷◌, some}
use auto_test_poc.Messages.Members.{tag_member}

pub data Field : Type 0 where
  begin_string body_length msg_type sender_comp_id target_comp_id msg_seq_num : Field
  sending_time checksum encrypt_method heart_bt_int test_req_id orig_sending_time : Field
  gap_fill_flag new_seq_no text encoded_text_len encoded_text poss_dup_flag : Field
  reset_seq_num_flag session_reject_reason ref_msg_type ref_tag_id ref_seq_num cl_ord_id : Field
  order_id exec_id exec_type ord_status side symbol : Field
  order_qty ord_type price time_in_force last_qty last_px : Field
  leaves_qty cum_qty avg_px transact_time orig_cl_ord_id cxl_rej_response_to : Field
  cxl_rej_reason security_exchange : Field

abbrev pub field_tag : Field → ℕ
field_tag begin_string = 8
field_tag body_length = 9
field_tag msg_type = 35
field_tag sender_comp_id = 49
field_tag target_comp_id = 56
field_tag msg_seq_num = 34
field_tag sending_time = 52
field_tag checksum = 10
field_tag encrypt_method = 98
field_tag heart_bt_int = 108
field_tag test_req_id = 112
field_tag orig_sending_time = 122
field_tag gap_fill_flag = 123
field_tag new_seq_no = 36
field_tag text = 58
field_tag encoded_text_len = 354
field_tag encoded_text = 355
field_tag poss_dup_flag = 43
field_tag reset_seq_num_flag = 141
field_tag session_reject_reason = 373
field_tag ref_msg_type = 372
field_tag ref_tag_id = 371
field_tag ref_seq_num = 45
field_tag cl_ord_id = 11
field_tag order_id = 37
field_tag exec_id = 17
field_tag exec_type = 150
field_tag ord_status = 39
field_tag side = 54
field_tag symbol = 55
field_tag order_qty = 38
field_tag ord_type = 40
field_tag price = 44
field_tag time_in_force = 59
field_tag last_qty = 32
field_tag last_px = 31
field_tag leaves_qty = 151
field_tag cum_qty = 14
field_tag avg_px = 6
field_tag transact_time = 60
field_tag orig_cl_ord_id = 41
field_tag cxl_rej_response_to = 434
field_tag cxl_rej_reason = 102
field_tag security_exchange = 207

-- `Field` as a sequence
abbrev pub all_fields : List Field
all_fields =
    begin_string ∷ body_length ∷ msg_type ∷ sender_comp_id ∷ target_comp_id ∷ msg_seq_num
    ∷ sending_time ∷ checksum ∷ encrypt_method ∷ heart_bt_int ∷ test_req_id ∷ orig_sending_time
    ∷ gap_fill_flag ∷ new_seq_no ∷ text ∷ encoded_text_len ∷ encoded_text ∷ poss_dup_flag
    ∷ reset_seq_num_flag ∷ session_reject_reason ∷ ref_msg_type ∷ ref_tag_id ∷ ref_seq_num
    ∷ cl_ord_id ∷ order_id ∷ exec_id ∷ exec_type ∷ ord_status ∷ side ∷ symbol ∷ order_qty ∷ ord_type
    ∷ price ∷ time_in_force ∷ last_qty ∷ last_px ∷ leaves_qty ∷ cum_qty ∷ avg_px ∷ transact_time
    ∷ orig_cl_ord_id ∷ cxl_rej_response_to ∷ cxl_rej_reason ∷ security_exchange ∷ []

-- No two members have the same value.
pub field_tag_lem : (e : Field) → tag_member field_tag all_fields (field_tag e) ≡ some e
field_tag_lem begin_string = refl
field_tag_lem body_length = refl
field_tag_lem msg_type = refl
field_tag_lem sender_comp_id = refl
field_tag_lem target_comp_id = refl
field_tag_lem msg_seq_num = refl
field_tag_lem sending_time = refl
field_tag_lem checksum = refl
field_tag_lem encrypt_method = refl
field_tag_lem heart_bt_int = refl
field_tag_lem test_req_id = refl
field_tag_lem orig_sending_time = refl
field_tag_lem gap_fill_flag = refl
field_tag_lem new_seq_no = refl
field_tag_lem text = refl
field_tag_lem encoded_text_len = refl
field_tag_lem encoded_text = refl
field_tag_lem poss_dup_flag = refl
field_tag_lem reset_seq_num_flag = refl
field_tag_lem session_reject_reason = refl
field_tag_lem ref_msg_type = refl
field_tag_lem ref_tag_id = refl
field_tag_lem ref_seq_num = refl
field_tag_lem cl_ord_id = refl
field_tag_lem order_id = refl
field_tag_lem exec_id = refl
field_tag_lem exec_type = refl
field_tag_lem ord_status = refl
field_tag_lem side = refl
field_tag_lem symbol = refl
field_tag_lem order_qty = refl
field_tag_lem ord_type = refl
field_tag_lem price = refl
field_tag_lem time_in_force = refl
field_tag_lem last_qty = refl
field_tag_lem last_px = refl
field_tag_lem leaves_qty = refl
field_tag_lem cum_qty = refl
field_tag_lem avg_px = refl
field_tag_lem transact_time = refl
field_tag_lem orig_cl_ord_id = refl
field_tag_lem cxl_rej_response_to = refl
field_tag_lem cxl_rej_reason = refl
field_tag_lem security_exchange = refl
