-- ===== src/Codes/Coe.antt =====
-- CANopen over EtherCAT codes of soes/esc.h (COE_...).
use soes.Base.{ℕ}

abbrev pub header_size : ℕ
header_size = 10

abbrev pub segment_header_size : ℕ
segment_header_size = 3

abbrev pub sdo_request : ℕ
sdo_request = 2

abbrev pub sdo_response : ℕ
sdo_response = 3

abbrev pub sdo_information : ℕ
sdo_information = 8

abbrev pub command_sdo_abort : ℕ
command_sdo_abort = 0x80

abbrev pub command_upload_request : ℕ
command_upload_request = 0x40

abbrev pub command_upload_response : ℕ
command_upload_response = 0x40

abbrev pub command_upload_seg_req : ℕ
command_upload_seg_req = 0x60

abbrev pub command_download_request : ℕ
command_download_request = 0x20

abbrev pub command_download_response : ℕ
command_download_response = 0x60

abbrev pub command_download_seg_req : ℕ
command_download_seg_req = 0

abbrev pub command_download_seg_resp : ℕ
command_download_seg_resp = 0x20

abbrev pub info_error : ℕ
info_error = 7

abbrev pub get_od_list_response : ℕ
get_od_list_response = 2

abbrev pub get_od_response : ℕ
get_od_response = 4

abbrev pub entry_description_response : ℕ
entry_description_response = 6

abbrev pub minimum_length : ℕ
minimum_length = 8
