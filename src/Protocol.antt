-- ===== src/Protocol.antt =====
-- common/shared_buffer_protocol.h and common/file_protocol.h: the constants that host and guest share.
use kvm_hypervisor.Base.{ℕ}

abbrev pub file_io_port : ℕ
file_io_port = 0x278

abbrev pub file_name_max : ℕ
file_name_max = 255

-- enum file_operation
abbrev pub file_operation_open : ℕ
file_operation_open = 1

abbrev pub file_operation_close : ℕ
file_operation_close = 2

abbrev pub file_operation_read : ℕ
file_operation_read = 3

abbrev pub file_operation_write : ℕ
file_operation_write = 4

abbrev pub file_operation_lseek : ℕ
file_operation_lseek = 5

-- enum file_open_flag
abbrev pub file_open_read : ℕ
file_open_read = 1

abbrev pub file_open_write : ℕ
file_open_write = 2

abbrev pub file_open_read_write : ℕ
file_open_read_write = 4

abbrev pub file_open_create : ℕ
file_open_create = 8

-- enum file_seek_flag
abbrev pub file_seek_set : ℕ
file_seek_set = 1

abbrev pub file_seek_end : ℕ
file_seek_end = 2

abbrev pub shared_buffer_port : ℕ
shared_buffer_port = 0x510

abbrev pub shared_buffer_status_port : ℕ
shared_buffer_status_port = 0x520

abbrev pub buffer_size : ℕ
buffer_size = 256

abbrev pub vm_mode_reader : ℕ
vm_mode_reader = 0

abbrev pub vm_mode_writer : ℕ
vm_mode_writer = 1
