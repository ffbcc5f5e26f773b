-- ===== src/Py.antt =====
-- What the program uses of Python: exceptions, texts, numerals, dictionaries and sorting.
pub mod Exceptions
pub mod Text
pub mod Decimal
pub mod Dict
pub mod Sort
pub mod State
