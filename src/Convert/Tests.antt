-- ===== src/Convert/Tests.antt =====
-- Runs of source/utils/convert.go.
use urd_code.Prelude.{◌≡◌, arith}
use urd_code.Prelude.Int.{negsuc}
use urd_code.Prelude.Calls.{returns}
use urd_code.Prelude.{some}
use urd_code.Convert.{int16, int_to_bytes, bytes_to_int, bytes_to_int-int_to_bytes}

bytes_to_int-int_to_bytes_example :
    bytes_to_int (int_to_bytes int16 (negsuc 300)) int16 ≡ returns (some (negsuc 300))
bytes_to_int-int_to_bytes_example = bytes_to_int-int_to_bytes int16 (negsuc 300) (omega arith)
