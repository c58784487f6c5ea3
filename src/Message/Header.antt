-- ===== src/Message/Header.antt =====
-- core/message.go: constants, `Header`, `serialize`, `makeHeader` and `ReadHeader`.
use envisilab.Base.{
  ℕ, ◌||◌, not, ◌++◌, ◌==◌, nat_eq, if◌then◌else◌, some, is_some, ltb, replicate, Bytes, Error,
  text,
}
use envisilab.Net.{NetConn, fill}
use envisilab.Wire.{be, binary_read, next_word, next_array}

abbrev pub version : ℕ
version = 1

abbrev pub msg_type_invalid : ℕ
msg_type_invalid = 0

abbrev pub msg_type_sync_request : ℕ
msg_type_sync_request = 1

abbrev pub msg_type_sync_response : ℕ
msg_type_sync_response = 2

abbrev pub msg_type_data_request : ℕ
msg_type_data_request = 3

abbrev pub msg_type_data_response : ℕ
msg_type_data_response = 4

-- A `uuid.UUID` is an array of 16 bytes.
pub record Header : Type 0 where
  pub magic : ℕ
  pub version : ℕ
  pub msg_type : ℕ
  pub user_agent : ℕ
  pub uuid : Bytes
  pub length : ℕ

abbrev pub nil_uuid : Bytes
nil_uuid = replicate 16 0

-- The zero value of the struct.
abbrev pub zero_header : Header
zero_header = record {
  magic = 0;
  version = 0;
  msg_type = 0;
  user_agent = 0;
  uuid = nil_uuid;
  length = 0;
}

unfoldable pub serialize : Header → Bytes → Bytes
serialize hdr buf =
    let buf1 = buf ++ be 1 hdr.magic in
    let buf2 = buf1 ++ be 1 hdr.version in
    let buf3 = buf2 ++ be 1 hdr.msg_type in
    let buf4 = buf3 ++ be 1 hdr.user_agent in let buf5 = buf4 ++ hdr.uuid in buf5 ++ be 4 hdr.length

unfoldable pub make_header : ℕ → ℕ → Header
make_header msg_type user_agent = record {
  magic = b'e';
  version = version;
  msg_type = msg_type;
  user_agent = user_agent;
  uuid = nil_uuid;
  length = 0;
}

unfoldable pub decode_header : Bytes → Header
decode_header bs =
    let (magic, bs1) = next_word 1 bs in
    let (ver, bs2) = next_word 1 bs1 in
    let (msg_type, bs3) = next_word 1 bs2 in
    let (user_agent, bs4) = next_word 1 bs3 in
    let (uuid, bs5) = next_array 16 bs4 in
    let (len, bs6) = next_word 4 bs5 in
    record {
      magic = magic;
      version = ver;
      msg_type = msg_type;
      user_agent = user_agent;
      uuid = uuid;
      length = len;
    }

abbrev pub bad_header : Error
bad_header = some (text "Incorrect Magic bytes or incorrect message version")

-- With fewer than 8 bytes, or an error, the header stays as it was.
unfoldable pub read_header : (c : NetConn) → Header → c.State → Header × Error × c.State
read_header c hdr s =
    let (num_read, hdr_bytes, err, s') = fill c s 24 in
    if ltb num_read 8 || is_some err
    then (hdr, err, s')
    else let (hdr', rest, err') = binary_read 24 decode_header hdr hdr_bytes in
      if not (hdr'.magic == 101) || not (hdr'.version == 1)
      then (hdr', bad_header, s')
      else (hdr', err', s')
