-- ===== src/Cli/Messages.antt =====
-- host/src/cli.cpp, `printGeneralUsage` to `printFileError` and the two messages that `parseArguments`
-- writes itself. A text is the list of the pieces that `<<` writes, with `argv[0]` as `program`.
use kvm_hypervisor.Base.{List, [], ◌∷◌, ◌++◌}
use Prim.Native.String.{String}

-- Which of the functions prints, with its message.
pub data Message : Type 0 where
  help_text : Message
  memory_error page_error guest_error file_error : String → Message
  unknown_option unexpected_argument : String → Message

-- `std::cout` and `std::cerr`.
pub data Stream : Type 0 where
  standard_output standard_error : Stream

abbrev pub Text : Type 0
Text = List String

abbrev pub general_usage : String → Text
general_usage program =
    "Usage:\n" ∷ "  " ∷ program
    ∷ " -m <2|4|8> -p <4|2> -g <guest-image> [guest-image ...] [-f <shared-file> ...]\n\n"
    ∷ "Options:\n" ∷ "  -m, --memory <2|4|8>    Guest memory size in MiB\n"
    ∷ "  -p, --page <4|2>        Guest page size: 4 KiB or 2 MiB\n"
    ∷ "  -g, --guest <images...>  Guest image paths\n"
    ∷ "  -f, --file <files...>    Shared file paths\n"
    ∷ "  -h, --help              Show this help\n" ∷ []

abbrev pub memory_error_text : String → String → Text
memory_error_text program message =
    "Error: " ∷ message ∷ "\n\n" ∷ "Memory option usage:\n" ∷ "  -m <2|4|8>\n"
    ∷ "  --memory <2|4|8>\n\n" ∷ "Example:\n" ∷ "  " ∷ program ∷ " -m 4 -p 2 -g guest.img\n" ∷ []

abbrev pub page_error_text : String → String → Text
page_error_text program message =
    "Error: " ∷ message ∷ "\n\n" ∷ "Page option usage:\n" ∷ "  -p <4|2>\n" ∷ "  --page <4|2>\n\n"
    ∷ "Values:\n" ∷ "  4    Use 4 KiB pages\n" ∷ "  2    Use 2 MiB pages\n\n" ∷ "Example:\n" ∷ "  "
    ∷ program ∷ " -m 4 -p 2 -g guest.img\n" ∷ []

abbrev pub guest_error_text : String → String → Text
guest_error_text program message =
    "Error: " ∷ message ∷ "\n\n" ∷ "Guest option usage:\n"
    ∷ "  -g <guest-image> [guest-image ...]\n" ∷ "  --guest <guest-image> [guest-image ...]\n\n"
    ∷ "Example:\n" ∷ "  " ∷ program ∷ " -m 4 -p 2 -g guest1.img guest2.img\n" ∷ []

abbrev pub file_error_text : String → String → Text
file_error_text program message =
    "Error: " ∷ message ∷ "\n\n" ∷ "File option usage:\n" ∷ "  -f <shared-file> [shared-file ...]\n"
    ∷ "  --file <shared-file> [shared-file ...]\n\n" ∷ "Example:\n" ∷ "  " ∷ program
    ∷ " -m 4 -p 2 -g guest1.img guest2.img -f a.txt b.txt\n" ∷ []

unfoldable pub stream_of : Message → Stream
stream_of help_text = standard_output
stream_of (memory_error message) = standard_error
stream_of (page_error message) = standard_error
stream_of (guest_error message) = standard_error
stream_of (file_error message) = standard_error
stream_of (unknown_option argument) = standard_error
stream_of (unexpected_argument argument) = standard_error

unfoldable pub text_of : String → Message → Text
text_of program help_text = general_usage program
text_of program (memory_error message) = memory_error_text program message
text_of program (page_error message) = page_error_text program message
text_of program (guest_error message) = guest_error_text program message
text_of program (file_error message) = file_error_text program message
text_of program (unknown_option argument) =
    ("Error: unknown option '" ∷ argument ∷ "'\n\n" ∷ []) ++ general_usage program
text_of program (unexpected_argument argument) =
    ("Error: unexpected argument '" ∷ argument ∷ "'\n\n" ∷ []) ++ general_usage program
