-- ===== src/Ahd/PostBuild.antt =====
-- The methods `post_build` of common/ahd_msg.py, which write the lengths into a packet that is built.
pub mod Slices
pub mod Lengths
pub mod Session
pub mod Operations
use auto_test_poc.Base.{ℕ, ◌+◌, List, ◌++◌, Option, none, some, length, drop}
use auto_test_poc.Base.Int.{ℤ, pos, sub_ℕ}
use auto_test_poc.Py.Text.{Text}
use auto_test_poc.Py.Decimal.{print_ℤ, rjust}
use auto_test_poc.Ahd.Fields.{slice}

-- `f"{n:5d}".encode("ascii")`
abbrev pub five_wide : ℤ → Text
five_wide n = rjust 5 32 (print_ℤ n)

-- `len(p) + len(payload) - 5`
abbrev pub length_behind : Text → Text → ℤ
length_behind p payload = sub_ℕ (length p + length payload) 5

-- `ESPCommon.post_build`
unfoldable pub esp_post_build : Text → Text → Text
esp_post_build p payload =
    five_wide (length_behind p payload)
    ++ (slice 5 38 p ++ (five_wide (pos (length payload)) ++ (drop 48 p ++ payload)))

-- `p = f"{len(p) + len(payload) - 5:5d}".encode("ascii") + p[5:]`
abbrev pub with_length : Text → Text → Text
with_length p payload = five_wide (length_behind p payload) ++ drop 5 p

-- `AdminCommon.post_build`, where `data_length` is the field `DataLength`
unfoldable pub admin_post_build : Option ℤ → Text → Text → Text
admin_post_build none p payload = with_length p payload ++ payload
admin_post_build (some data_length) p payload = p ++ payload

-- `OrderCommon.post_build`, where `data_len` is the field `DataLen`
unfoldable pub order_post_build : Option ℤ → Text → Text → Text
order_post_build none p payload = with_length p payload ++ payload
order_post_build (some data_len) p payload = p ++ payload

-- `NoticeCommon.post_build`
unfoldable pub notice_post_build : Text → Text → Text
notice_post_build p payload = with_length p payload ++ payload
