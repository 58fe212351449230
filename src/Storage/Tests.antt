-- ===== src/Storage/Tests.antt =====
-- Bytes of a word and of a directory entry.
use nachos_system_calls.Prelude.{◌≡◌, refl, true, [], ◌∷◌, replicate}
use nachos_system_calls.Directory.{DirectoryEntry}
use nachos_system_calls.OpenFile.{Buffer}
use nachos_system_calls.Storage.{
  word_byte, words_buffer, read_words, entry_byte, table_buffer, read_table,
}

abbrev entry : DirectoryEntry
entry = record { in_use = true; sector = 258; name = 97 ∷ 98 ∷ replicate 49 0 }

abbrev no_pad : Buffer
no_pad j = 255

word_byte_run : (word_byte 0x01020304 0 ≡ 4) × (word_byte 0x01020304 3 ≡ 1)
word_byte_run = (refl, refl)

read_words_run : read_words 2 0 (words_buffer (0x01020304 ∷ 7 ∷ [])) ≡ 0x01020304 ∷ 7 ∷ []
unfolding read_words words_buffer
read_words_run = refl

-- The bytes of inUse, of the sector, of the name and at the end.
entry_byte_run :
    (entry_byte entry 255 0 ≡ 1)
    × (entry_byte entry 255 3 ≡ 255)
    × (entry_byte entry 255 4 ≡ 2)
    × (entry_byte entry 255 9 ≡ 98)
    × (entry_byte entry 255 59 ≡ 255)
entry_byte_run = (refl, refl, refl, refl, refl)

read_table_run : read_table 1 (table_buffer no_pad (entry ∷ [])) ≡ entry ∷ []
unfolding read_table table_buffer
read_table_run = refl
