-- ===== src/Python.antt =====
-- The part of Python that the program computes with: numbers, times, values of a dynamic type, and
-- as an interface the functions of the standard library whose results the program only compares.
pub mod Number
pub mod Value
pub mod Text
pub mod Runtime
