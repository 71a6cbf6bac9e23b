-- ===== src/Lib.antt =====
-- appimagetool: makes an AppImage of an AppDir. The program determines the architecture of the files,
-- packs the directory with mksquashfs behind a runtime, and writes the update information, an MD5
-- digest and a signature into sections of the runtime, which it finds by name in the ELF file.
--
-- Parts, files and functions:
--   Base      what the other files share: lists over native numbers, byte strings, 64-bit words,
--             `Option` as the result of code that may read outside its memory.
--   Elf       src/elf.c and src/light_elf.h: `appimage_get_elf_section_offset_and_length`. A file is a
--             function from an index to a byte, as `mmap` gives it: null bytes up to the end of the
--             last page and faults behind it. Elf/Section has the table of the sections, Elf/Frame
--             what a lookup depends on. Elf/Size has `read_elf32` and `read_elf64` with the swaps of
--             src/light_byteswap.h, Elf/Dump `appimage_print_hex` and `appimage_print_binary`; nothing
--             in the program calls these.
--   Digest    src/digest.c: `appimage_type2_digest_md5`, one definition for a round of the loop over
--             chunks and one for each of its parts. The three blocks for the three sections are the
--             same text three times in the source, and one definition here. Variables of type
--             `ssize_t` are 64-bit patterns. The uninitialised buffer holds what the parameter `stack`
--             says. Digest/Bounds has totality, Digest/Chunks and Digest/Sections what one round does,
--             Digest/Placed where sections may lie, Digest/Changed and Digest/Ignores the independence
--             from a section's bytes.
--   Embed     src/appimagetool.c, `main`: the two steps that write the update information and the
--             digest. They use the lookup and the digest, and the files Embed/Write, Embed/Stable
--             and Embed/Changed join the theorems on these. Embed/Shown joins the update information
--             with Elf/Dump.
--   Sign      src/appimagetool_sign.c: `embed_data_in_elf_section` in Sign, Sign/Write and Sign/Pieces,
--             `calculate_sha256_hex_digest` in Sign/Hash. Sign/Run has the five global pointers, each
--             with a count of what was made for it and not released, and a monad for code that returns
--             early, exits or faults; Sign/Steps has `add_signers` and `sign_appimage` in it, step by
--             step, with `init_gcrypt` and the callback for the passphrase. What GPGME and libgcrypt answer
--             are parameters. Sign/Done, Sign/Initialized, Sign/Signers, Sign/Branches and
--             Sign/Complete follow the resources through every path, Sign/Agreed is the run in which
--             nothing fails, Sign/Sealed joins signing with the digest, Sign/Stands says what stands in the
--             two sections of a signed file, and Sign/Verified what file the signature is of. Sign/Succeeds joins Sign/Agreed with the two embeddings.
--   Hexlify   src/hexlify.c: `appimage_hexlify`.
--   Replace   src/appimagetool.c: `replacestr`.
--   Arch      src/appimagetool.c: the architecture from the variable ARCH and from the files of the
--             AppDir (`extract_arch_from_text`, `find_arch` and what they call; `main`).
--   Squashfs  src/appimagetool.c: `sfs_mksquashfs`: the argument array, the exit status, and the
--             whole function over a child that is a function of its arguments. Squashfs/Offset has the
--             text of the offset.
--   UpdateInfo  src/appimagetool.c, `main`: the guess of the update information on CI systems.
--   Fetch     src/appimagetool_fetch_runtime.cpp: the request with libcurl, whose answers are a record,
--             and `fetch_runtime`. Exceptions are results; the session counts handles and
--             initialisations. Fetch/Settings has the options of a request, Fetch/Ready what the
--             constructor leaves behind, Fetch/Laws the response, Fetch/Downloaded and Fetch/Agreed the
--             function.
--   Package   src/appimagetool.c, `main`: the steps from the runtime to the zsync file, made of Fetch,
--             Squashfs, UpdateInfo, Embed and Sign. Package/Layout says where sections may lie in a file,
--             Package/Runtime what a runtime must be like so that they do in every file made of it.
--             Package/Digest follows the digest to the end, Package/Image has the runtime in front of
--             the file system image, Package/Built the files between the steps, Package/Finished the
--             finished AppImage, Package/Checked what a reader finds in its sections, Package/Passed what the
--             system answered to all steps, and Package/Able and Package/Succeeds when they succeed.
--   Prepare   src/appimagetool.c, `main`: the tests at the start and what is checked and decided of the
--             AppDir, with `validate_desktop_file`, `run_external` and
--             `find_first_matching_file_nonrecursive`. It uses Arch and Naming.
--   Main      src/appimagetool.c, `main`: the whole program, from Prepare to Package, with its exit
--             codes: Main/Laws what the code 0 means, Main/Succeeds when it is given.
--   Naming    src/appimagetool.c, `main`: the name of the AppImage and the choice of its icon.
--   Glib      the functions of GLib that the program calls, as a record, with their documented
--             behaviour as laws. Glib/Sample is an instance for the tests.
--
-- Fuel: the loop of the digest has the file's length and one more as fuel, which the theorem on
-- its totality shows to be enough. The loop over the file in `calculate_sha256_hex_digest` has one
-- round for each 4096 bytes and one more, which its theorem shows to be enough.
-- `embed_data_in_elf_section` takes its fuel as an argument, since a data object whose reads never
-- end keeps it going. `replacestr` has fuel for its depth; its callers here give the length of the
-- text and one more, which is enough for the replacement of one byte, and for an ending of which
-- each replacement leaves one fewer. The loops over section
-- headers and over bytes are structural recursions on their bounds.
--
-- Not modelled: md5.c is a copy of another library, its functions are a parameter. Printing, the
-- parsing of the options and external programs are not modelled but for their results. The program is
-- the one that is built without AUXILIARY_FILES_DESTINATION. The callback of GPGME for status messages
-- only prints.
pub mod Base
pub mod Glib
pub mod Replace
pub mod Elf
pub mod Digest
pub mod Hexlify
pub mod Arch
pub mod Squashfs
pub mod UpdateInfo
pub mod Embed
pub mod Fetch
pub mod Sign
pub mod Naming
pub mod Package
pub mod Prepare
pub mod Main
